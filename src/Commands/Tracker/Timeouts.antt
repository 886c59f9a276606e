-- ===== src/Commands/Tracker/Timeouts.antt =====
-- CheckTimeouts of internal/commands/tracker.go.
use mathlib.Core.Option
use df_ai.Base.{
  Bool, List, Option, [], ap, arith, false, get_elem?, get_elem?-modify, if◌then◌else◌, lookup, ltb,
  modify, nat_key, none, refl, some, sub_ℕ, true, ℕ, ◌&&◌, ◌==◌, ◌||◌, ◌∙◌, ◌∷◌, ◌≡◌,
}
use df_ai.Commands.Types.{
  Command, CommandResult, command_sent, command_timeout, is_pending, same_command_status,
}
use df_ai.Protocol.Messages.Queries.{ack_status_failure}
use df_ai.Commands.Tracker.{
  CommandTracker, at_pointer, check_timeouts, expire, expire_all, get_command, offer,
  timeout_result, timeout_text,
}

expire_twice : (now : ℕ) (c : Command) → expire now (expire now c) ≡ expire now c
unfolding is_pending
expire_twice now c = ground arith

expire_maybe_twice :
    (now : ℕ) (o : Option Command)
    → Option.map (expire now) (Option.map (expire now) o) ≡ Option.map (expire now) o
expire_maybe_twice now none = refl
expire_maybe_twice now (some c) = ap some (expire_twice now c)

-- Whether the map has the pointer `p`.
abbrev is_pointed : ℕ → List (ℕ × ℕ) → Bool
is_pointed p [] = false
is_pointed p ((id, q) ∷ m) = q == p || is_pointed p m

is_pointed-lookup : (id p : ℕ) (m : List (ℕ × ℕ)) → lookup id m ≡ some p → is_pointed p m ≡ true
unfolding lookup
is_pointed-lookup id p [] e = cc
is_pointed-lookup id p ((j, q) ∷ m) e = ground (arith, is_pointed-lookup id p m)

get_elem?-expire_all :
    (now p : ℕ) (m : List (ℕ × ℕ)) (cells : List Command)
    → get_elem? (expire_all now m cells).1 p
      ≡ (if is_pointed p m then Option.map (expire now) (get_elem? cells p) else get_elem? cells p)
unfolding expire_all
get_elem?-expire_all now p [] cells = refl
get_elem?-expire_all now p ((id, q) ∷ m) cells =
    get_elem?-expire_all now p m (modify q (expire now) cells)
    ∙ ground
        (arith, get_elem?-modify q p (expire now) cells, expire_maybe_twice now (get_elem? cells p))

expired_at :
    (now : ℕ) (m : List (ℕ × ℕ)) (cells : List Command) (o : Option ℕ)
    → ((p : ℕ) → o ≡ some p → is_pointed p m ≡ true)
    → at_pointer (expire_all now m cells).1 o ≡ Option.map (expire now) (at_pointer cells o)
expired_at now m cells none pointed = refl
expired_at now m cells (some p) pointed =
    get_elem?-expire_all now p m cells ∙ rw (pointed p refl) refl

-- Each command that an id finds is expired once.
pub get_command-check_timeouts :
    (now id : ℕ) (t : CommandTracker)
    → get_command (check_timeouts now t).1 id ≡ Option.map (expire now) (get_command t id)
unfolding get_command check_timeouts
get_command-check_timeouts now id t =
    expired_at now t.commands t.cells (lookup id t.commands)
      (λ p e. is_pointed-lookup id p t.commands e)

-- What a channel of capacity one holds after an offer: the result that came first.
abbrev pub first_result : Option CommandResult → CommandResult → CommandResult
first_result none r = r
first_result (some earlier) r = earlier

offered : (o : Option CommandResult) (r : CommandResult) → offer r o ≡ some (first_result o r)
offered none r = refl
offered (some earlier) r = refl

-- In any tracker, CheckTimeouts makes of the command that an id finds the same command with the
-- status Timeout and, in its channel, a result without success, with the status of failure, the
-- text of the timeout and the time since the command was sent, or the result that was in the
-- channel before, exactly if the command was sent and its deadline is before the check; otherwise
-- it leaves the command as it was.
pub check_timeouts_lem :
    (now id : ℕ) (t : CommandTracker) (c : Command)
    → get_command t id ≡ some c
    → get_command (check_timeouts now t).1 id
      ≡ some (
          if same_command_status c.status command_sent && ltb c.timeout_at now
          then record c {
            status = command_timeout;
            result_chan = some (
                first_result c.result_chan (record {
                  success = false;
                  status = ack_status_failure;
                  error_msg = timeout_text;
                  response = none;
                  duration = sub_ℕ now c.sent_at;
                }));
          }
          else c)
unfolding is_pending
check_timeouts_lem now id t c found =
    get_command-check_timeouts now id t
    ∙ ap (Option.map (expire now)) found
    ∙ ap
        (λ o. some (
          if same_command_status c.status command_sent && ltb c.timeout_at now
          then record c { status = command_timeout; result_chan = o }
          else c))
        (offered c.result_chan (timeout_result now c))
