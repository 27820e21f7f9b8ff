-- ===== src/Initialize/Sizes.antt =====
-- `get_aligned_size`: the length of the file.
use native.Mathlib.Nat.{div-add-mod', mod-lt, mod-eq_of_lt, add-mod_right}
use firebase_telemetry_persi.Common.{
  ap, sym, subst, ◌∙◌, ◌⊎◌, inl, inr, ℕ, ◌+◌, ◌-◌, ◌*◌, ◌/◌, ◌%◌, ◌^◌, ◌≤◌, ◌<◌, ◌≡◌, refl, Option,
  arith, some, none,
}
use firebase_telemetry_persi.Layout.{get_memory_layout_size}
use firebase_telemetry_persi.Layout.Sizes.{get_memory_layout_size-bounds}
use firebase_telemetry_persi.Initialize.{get_page_size, get_aligned_size}

-- Rounding up to a multiple of p.
round_up : (n p : ℕ) → 0 < p → (n ≤ (n + p - 1) / p * p) × ((n + p - 1) / p * p < n + p)
round_up n p h =
    let whole = div-add-mod' (n + p - 1) p in
    let rest = mod-lt (n + p - 1) h in (omega (arith, whole, rest), omega (arith, whole, rest))

pub get_page_size_pos : (sysconf : Option ℕ) → 0 < get_page_size sysconf
unfolding get_page_size
get_page_size_pos none = omega arith
get_page_size_pos (some n) = ground arith

-- One is subtracted modulo m.
wrapped : (m k : ℕ) → 0 < k → k ≤ m → (k + m - 1) % m ≡ k - 1
wrapped m k h le =
    let same : k + m - 1 ≡ k - 1 + m = omega (arith, h) in
    ap (λ x. x % m) same ∙ add-mod_right (k - 1) m ∙ mod-eq_of_lt (omega (arith, h, le))

-- The widths of `size_t` on the supported machines.
abbrev pub IsWidth : ℕ → Type 0
IsWidth bits = (bits ≡ 32) ⊎ (bits ≡ 64)

room_in_word : (bits n p : ℕ) → IsWidth bits → n ≤ 50593824 → p ≤ 2 ^ (bits / 2) → n + p ≤ 2 ^ bits
room_in_word bits n p (inl e) h =
    subst (λ b. p ≤ 2 ^ (b / 2) → n + p ≤ 2 ^ b) (sym e) (λ k. omega (arith, h, k))
room_in_word bits n p (inr e) h =
    subst (λ b. p ≤ 2 ^ (b / 2) → n + p ≤ 2 ^ b) (sym e) (λ k. omega (arith, h, k))

-- For a `size_t` of 32 or 64 bits, and a page of at most 2^16 or 2^32 bytes, nothing wraps around: the
-- length of the file is a multiple of the page size, holds the layout, and has less than a page to
-- spare.
pub get_aligned_size_lem :
    (size_bits : ℕ) (sysconf : Option ℕ) (size : ℕ)
    → IsWidth size_bits
    → get_page_size sysconf ≤ 2 ^ (size_bits / 2)
    → ((k : ℕ) × (get_aligned_size size_bits sysconf size ≡ k * get_page_size sysconf))
      × (get_memory_layout_size size ≤ get_aligned_size size_bits sysconf size)
      × (get_aligned_size size_bits sysconf size
          < get_memory_layout_size size + get_page_size sysconf)
unfolding get_aligned_size
get_aligned_size_lem size_bits sysconf size w h =
    let n = get_memory_layout_size size in
    let p = get_page_size sysconf in
    let some_page = get_page_size_pos sysconf in
    let (enough, tight) = round_up n p some_page in
    let (_, bound) = get_memory_layout_size-bounds size in
    let room = room_in_word size_bits n p w bound h in
    let sum : (n + p + 2 ^ size_bits - 1) % 2 ^ size_bits ≡ n + p - 1 =
      wrapped (2 ^ size_bits) (n + p) (omega (arith, some_page)) room in
    let product : (n + p - 1) / p * p % 2 ^ size_bits ≡ (n + p - 1) / p * p =
      mod-eq_of_lt (omega (arith, tight, room)) in
    rw (sum, product) (((n + p - 1) / p, refl), enough, tight)
