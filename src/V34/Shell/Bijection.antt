-- ===== src/V34/Shell/Bijection.antt =====
-- The shell mapper of nf_v34.c numbers the choices of eight rings.
use nospandsp_fax.Common.{ℕ, ◌*◌, ◌^◌, ◌≤◌, ◌<◌, ◌≡◌, ◌∙◌, arith}
use nospandsp_fax.V34.Shell.{Rings, shell_map, shell_unmap}
use nospandsp_fax.V34.Shell.RoundTrip.{AreRings, capacity, back_from_rings, back_from_number}
use nospandsp_fax.V34.Shell.Capacity.{capacity_lem}
use native.Mathlib.Nat.{pow-suc, pow-zero, pow-le-pow_left}

pub capacity-eq-pow : (m : ℕ) → 0 < m → capacity m ≡ m ^ 8
capacity-eq-pow m pos = capacity_lem m pos ∙ eight
  where
    eight : (m * m) * (m * m) * ((m * m) * (m * m)) ≡ m ^ 8
    eight =
        rw
          (
            pow-suc m 7,
            pow-suc m 6,
            pow-suc m 5,
            pow-suc m 4,
            pow-suc m 3,
            pow-suc m 2,
            pow-suc m 1,
            pow-suc m 0,
            pow-zero m,
          )
          (grind arith)

-- With m rings, at most 32, every number below m ^ 8 that has at most 32 bits is mapped to eight rings below
-- m, and mapping these back gives the number.
pub shell_unmap-shell_map :
    (m r0 : ℕ)
    → 0 < m
    → m ≤ 32
    → r0 < m ^ 8
    → r0 < 2 ^ 32
    → (shell_unmap m (shell_map m r0) ≡ r0) × AreRings m (shell_map m r0)
shell_unmap-shell_map m r0 pos le lt narrow =
    let e = capacity-eq-pow m pos in back_from_rings m r0 (omega (arith, e)) narrow

-- With m rings, at most 16, every choice of eight rings below m is mapped to a number below
-- m ^ 8, and mapping this back gives the rings.
pub shell_map-shell_unmap :
    (m : ℕ) (r : Rings)
    → 0 < m
    → m ≤ 16
    → AreRings m r
    → (shell_map m (shell_unmap m r) ≡ r) × (shell_unmap m r < m ^ 8)
shell_map-shell_unmap m r pos le h =
    let e = capacity-eq-pow m pos in
    let small : m ^ 8 ≤ 2 ^ 32 = pow-le-pow_left le 8 in
    let (same, lt) = back_from_number m r h (omega (arith, e, small)) in
    (same, omega (arith, e, lt))
