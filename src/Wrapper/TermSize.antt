-- ===== src/Wrapper/TermSize.antt =====
-- crates/agent-dash/src/wrapper.rs: `AtomicTermSize`, two u16 numbers in one u32.
use Prim.Native.Nat.{bit_or}
use agent_dash.Prelude.{ℕ, ◌+◌, ◌*◌, ◌/◌, ◌%◌, ◌^◌, ◌<◌, ◌≡◌, refl, arith}
use agent_dash.Prelude.Bits.{bit_or-shift}

abbrev pub u16_mod : ℕ
u16_mod = 2 ^ 16

abbrev pub u32_mod : ℕ
u32_mod = 2 ^ 32

-- `((cols as u32) << 16) | rows as u32`
unfoldable pub pack : (cols rows : ℕ) → ℕ
pack cols rows = bit_or (cols * 2 ^ 16 % u32_mod) (rows % u32_mod)

pub record AtomicTermSize : Type 0 where
  pub bits : ℕ

unfoldable pub new : (cols rows : ℕ) → AtomicTermSize
new cols rows = record { bits = pack cols rows }

unfoldable pub store : (cols rows : ℕ) → AtomicTermSize → AtomicTermSize
store cols rows s = record s { bits = pack cols rows }

-- `((v >> 16) as u16, v as u16)`
unfoldable pub load : AtomicTermSize → ℕ × ℕ
load s = (s.bits / 2 ^ 16 % u16_mod, s.bits % u16_mod)

pack-add : (cols rows : ℕ) → cols < 2 ^ 16 → rows < 2 ^ 16 → pack cols rows ≡ cols * 2 ^ 16 + rows
unfolding pack
pack-add cols rows hc hr =
    let wide : cols * 2 ^ 16 % u32_mod ≡ cols * 2 ^ 16 = omega arith in
    let low : rows % u32_mod ≡ rows = omega arith in rw (wide, low) (bit_or-shift 16 cols rows hr)

-- The size that is loaded is the one that was stored last, or that the cell was made with: the two
-- 16-bit numbers do not run into each other, and the packed number fits into 32 bits.
pub load-store :
    (cols rows : ℕ) (s : AtomicTermSize)
    → cols < 2 ^ 16
    → rows < 2 ^ 16
    → (load (store cols rows s) ≡ (cols, rows))
      × (load (new cols rows) ≡ (cols, rows))
      × (pack cols rows < 2 ^ 32)
unfolding load store new
load-store cols rows s hc hr =
    let sum = pack-add cols rows hc hr in
    let hi : pack cols rows / 2 ^ 16 % 2 ^ 16 ≡ cols = omega (arith, sum) in
    let lo : pack cols rows % 2 ^ 16 ≡ rows = omega (arith, sum) in
    (rw (hi, lo) refl, rw (hi, lo) refl, omega (arith, sum))
