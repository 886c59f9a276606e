-- ===== src/Topology/Overlay/Places.antt =====
-- The bit index of internal/topology/overlay.go: every tile of the map has its own.
use df_ai.Base.{
  ==_iff, Bool, ap, arith, false, negsuc, of_word, pos, refl, same_ℤ, suc, sym, true, zero, ℕ, ℤ,
  ◌%◌, ◌&&◌, ◌*◌, ◌+◌, ◌<◌, ◌==◌, ◌^◌, ◌||◌, ◌∙◌, ◌≡◌,
}
use df_ai.Topology.Overlay.{TopologyOverlay, bit_index, is_beyond, is_outside}

-- A map of which every tile has an index.
pub record FitsMap (t : TopologyOverlay) : Type 0 where
  pub width_fits : t.width < 2 ^ 15
  pub height_fits : t.height < 2 ^ 15
  pub depth_fits : t.depth < 2 ^ 15
  pub total : t.total_tiles ≡ t.depth * t.height * t.width
  pub total_fits : t.total_tiles + 7 < 2 ^ 32

digits-bound : (q w d x : ℕ) → q < d → x < w → q * w + x < d * w
digits-bound q w zero x hq hx = absurd (omega arith)
digits-bound zero w (suc d) x hq hx = omega arith
digits-bound (suc q) w (suc d) x hq hx = omega (arith, digits-bound q w d x (omega arith) hx)

digits_same : (p q w x y : ℕ) → x < w → y < w → p * w + x ≡ q * w + y → (p ≡ q) × (x ≡ y)
digits_same zero zero w x y hx hy e = (refl, omega arith)
digits_same zero (suc q) w x y hx hy e = absurd omega arith
digits_same (suc p) zero w x y hx hy e = absurd omega arith
digits_same (suc p) (suc q) w x y hx hy e =
    let rest = digits_same p q w x y hx hy omega arith in (ap suc rest.0, rest.1)

layers : (z w h y x : ℕ) → z * w * h + y * w + x ≡ (z * h + y) * w + x
layers z w h y x = omega arith

-- A coordinate on the map.
pub inside :
    (c : ℤ) (size : ℕ)
    → size < 2 ^ 15
    → is_beyond c size ≡ false
    → (n : ℕ) × (c ≡ pos n) × (n < size)
unfolding of_word
inside (pos n) size fits h = (n, refl, ground arith)
inside (negsuc n) size fits h = ground arith

pub record Place (t : TopologyOverlay) (x y z : ℤ) : Type 0 where
  pub px : ℕ
  pub py : ℕ
  pub pz : ℕ
  pub at_x : x ≡ pos px
  pub at_y : y ≡ pos py
  pub at_z : z ≡ pos pz
  pub x_fits : px < t.width
  pub y_fits : py < t.height
  pub z_fits : pz < t.depth

or_false : (a b : Bool) → (a || b) ≡ false → (a ≡ false) × (b ≡ false)
or_false false b h = (refl, h)
or_false true b h = ground arith

pub inner-Place :
    (t : TopologyOverlay) (x y z : ℤ) → FitsMap t → is_outside t x y z ≡ false → Place t x y z
inner-Place t x y z fits h =
    let (hxy, hz) =
      or_false (is_beyond x t.width || is_beyond y t.height) (is_beyond z t.depth) h in
    let (hx, hy) = or_false (is_beyond x t.width) (is_beyond y t.height) hxy in
    let (px, ex, lx) = inside x t.width fits.width_fits hx in
    let (py, ey, ly) = inside y t.height fits.height_fits hy in
    let (pz, ez, lz) = inside z t.depth fits.depth_fits hz in
    record {
      px = px;
      py = py;
      pz = pz;
      at_x = ex;
      at_y = ey;
      at_z = ez;
      x_fits = lx;
      y_fits = ly;
      z_fits = lz;
    }

-- The index does not wrap.
pub bit_index_lem :
    (t : TopologyOverlay) (x y z : ℤ) (v : FitsMap t) (p : Place t x y z)
    → (bit_index t x y z ≡ (p.pz * t.height + p.py) * t.width + p.px)
      × (bit_index t x y z < t.total_tiles)
unfolding bit_index
bit_index_lem t x y z v p =
    let level = digits-bound p.pz t.height t.depth p.py p.z_fits p.y_fits in
    let whole =
      digits-bound (p.pz * t.height + p.py) t.width (t.depth * t.height) p.px level p.x_fits in
    let same = layers p.pz t.width t.height p.py p.px in
    let index : bit_index t x y z ≡ (p.pz * t.width * t.height + p.py * t.width + p.px) % 2 ^ 32 =
      rw (p.at_x, p.at_y, p.at_z) refl in
    let exact : bit_index t x y z ≡ (p.pz * t.height + p.py) * t.width + p.px =
      index ∙ omega (arith, same, whole, v.total, v.total_fits) in
    (exact, omega (arith, exact, whole, v.total))

same_tests : (a b : Bool) → (a ≡ true → b ≡ true) → (b ≡ true → a ≡ true) → a ≡ b
same_tests true b there back = sym (there refl)
same_tests false b there back = ground (arith, back)

digits_test :
    (w h x y z x' y' z' : ℕ)
    → x < w
    → y < h
    → x' < w
    → y' < h
    → ((z * h + y) * w + x == (z' * h + y') * w + x') ≡ (x == x' && y == y' && z == z')
digits_test w h x y z x' y' z' hx hy hx' hy' =
    same_tests ((z * h + y) * w + x == (z' * h + y') * w + x') (x == x' && y == y' && z == z')
      (λ e.
        let (rows, columns) =
          digits_same (z * h + y) (z' * h + y') w x x' hx hx'
            ((==_iff ((z * h + y) * w + x) ((z' * h + y') * w + x')).0 e) in
        let (levels, lines) = digits_same z z' h y y' hy hy' rows in
        ground (arith, rows, columns, levels, lines))
      (λ e.
        let ex : x ≡ x' = ground arith in
        let ey : y ≡ y' = ground arith in
        let ez : z ≡ z' = ground arith in
        (==_iff ((z * h + y) * w + x) ((z' * h + y') * w + x')).1 (rw (ex, ey, ez) refl))

pub bit_index_same :
    (t : TopologyOverlay) (x y z x' y' z' : ℤ)
    → FitsMap t
    → Place t x y z
    → Place t x' y' z'
    → (bit_index t x y z == bit_index t x' y' z') ≡ (same_ℤ x x' && same_ℤ y y' && same_ℤ z z')
bit_index_same t x y z x' y' z' v p q =
    rw
      (
        (bit_index_lem t x y z v p).0,
        (bit_index_lem t x' y' z' v q).0,
        p.at_x,
        p.at_y,
        p.at_z,
        q.at_x,
        q.at_y,
        q.at_z,
      )
      (digits_test t.width t.height p.px p.py p.pz q.px q.py q.pz p.x_fits p.y_fits q.x_fits
        q.y_fits)
