-- ===== src/CopyString/Crash.antt =====
-- What a crash inside `copy_string` or `copy_string2` can leave in the buffers. The bytes that
-- `memset` and `memcpy` store are taken to arrive in any order.
use firebase_telemetry_persi.Common.{
  ℕ, zero, suc, ◌<◌, ◌≡◌, refl, subst, ap, ◌⊎◌, inl, inr, false, arith, length, List, [], ◌∷◌,
  replicate, ok, ◌∙◌, ◌==◌, Bool-cases, >>=-eq-ok, ==→eq, sym,
}
use firebase_telemetry_persi.Common.Interrupts.{Interrupted, finished, torn, next, run_all}
use firebase_telemetry_persi.CopyString.{
  Bytes, get_utf8_length, memcpy, memset, copy_string, copy_string2,
}
use firebase_telemetry_persi.CopyString.Buffers.{c_str, until_nul, truncate, c_str-copy_string}

-- A buffer caught between two contents: each byte is the old one or the new one.
pub data Mixed : Bytes → Bytes → Bytes → Type 0 where
  nil : Mixed [] [] []
  old : {a b : ℕ} {xs ys zs : Bytes} → Mixed xs ys zs → Mixed (a ∷ xs) (b ∷ ys) (a ∷ zs)
  new : {a b : ℕ} {xs ys zs : Bytes} → Mixed xs ys zs → Mixed (a ∷ xs) (b ∷ ys) (b ∷ zs)

abbrev pub IsPrefix : Bytes → Bytes → Type 0
IsPrefix [] t = Unit {0}
IsPrefix (a ∷ s) [] = ⊥
IsPrefix (a ∷ s) (b ∷ t) = (a ≡ b) × IsPrefix s t

pub IsPrefix-refl : (s : Bytes) → IsPrefix s s
IsPrefix-refl [] = tt
IsPrefix-refl (a ∷ s) = (refl, IsPrefix-refl s)

Mixed-sym : {xs ys zs : Bytes} → Mixed xs ys zs → Mixed ys xs zs
Mixed-sym nil = nil
Mixed-sym (old m) = new (Mixed-sym m)
Mixed-sym (new m) = old (Mixed-sym m)

-- A buffer that holds a C string, which is a prefix of the given one.
abbrev pub HoldsPrefix : Bytes → Bytes → Type 0
HoldsPrefix buffer s = (t : Bytes) × (c_str buffer ≡ ok t) × IsPrefix t s

HoldsPrefix-cons :
    (b : ℕ) (buffer s : Bytes) → HoldsPrefix buffer s → HoldsPrefix (b ∷ buffer) (b ∷ s)
unfolding c_str
HoldsPrefix-cons b buffer s (t, e, p) = elim (Bool-cases (b == 0)) [
  | inl z ↦ ([], rw z, tt)
  | inr nz ↦ (b ∷ t, rw (nz, e), (refl, p))
]

nil_faults : (s : Bytes) → c_str [] ≡ ok s → ⊥
unfolding c_str
nil_faults s h = cc

HoldsPrefix-zero : (b : ℕ) (buffer s : Bytes) → b ≡ 0 → HoldsPrefix (b ∷ buffer) s
unfolding c_str
HoldsPrefix-zero b buffer s e = ([], ground arith, tt)

c_str-cons_inv :
    (a : ℕ) (xs s : Bytes)
    → (a == 0) ≡ false
    → c_str (a ∷ xs) ≡ ok s
    → (t : Bytes) × (c_str xs ≡ ok t) × (s ≡ a ∷ t)
unfolding c_str
c_str-cons_inv a xs s nz h =
    let (t, e, k) = >>=-eq-ok (c_str xs) (λ u. ok (a ∷ u)) (rw nz at h) in (t, e, ground arith)

-- Clearing a buffer leaves at any time a prefix of what it held.
c_str-Mixed_zeros :
    {xs ys zs : Bytes} (s : Bytes)
    → Mixed xs ys zs
    → ys ≡ replicate (length xs) 0
    → c_str xs ≡ ok s
    → HoldsPrefix zs s
c_str-Mixed_zeros s nil e h = absurd (nil_faults s h)
c_str-Mixed_zeros s (old {a = a} {xs = xs} {zs = zs} m) e h = elim (Bool-cases (a == 0)) [
  | inl z ↦ HoldsPrefix-zero a zs s (==→eq a 0 z)
  | inr nz ↦
      let (t, k, g) = c_str-cons_inv a xs s nz h in
      subst (HoldsPrefix (a ∷ zs)) (sym g)
        (HoldsPrefix-cons a zs t (c_str-Mixed_zeros t m (ground arith) k))
]
c_str-Mixed_zeros s (new {b = b} {zs = zs} m) e h = HoldsPrefix-zero b zs s (ground arith)

-- The stores of the two functions: a `memset` to 0, or a `memcpy` of n bytes.
pub data Store : Type 0 where
  clear : Store
  fill : Bytes → ℕ → Store

unfoldable pub store : Store → Bytes → Bytes
store clear dest = memset dest 0
store (fill src n) dest = memcpy dest src n

-- `copy_string (src, dest)` with a buffer of n bytes.
unfoldable pub copy_string_stores : ℕ → Bytes → List Store
copy_string_stores n src = clear ∷ fill src (get_utf8_length n src) ∷ []

-- A store into the first or into the second buffer.
pub data Store2 : Type 0 where
  first : Store → Store2
  second : Store → Store2

unfoldable pub store2 : Store2 → Bytes × Bytes → Bytes × Bytes
unfolding store
store2 (first o) (dest1, dest2) = (store o dest1, dest2)
store2 (second o) (dest1, dest2) = (dest1, store o dest2)

unfoldable pub copy_string2_stores : ℕ → Bytes → ℕ → Bytes → List Store2
copy_string2_stores n1 src1 n2 src2 =
    first clear
    ∷ second clear
    ∷ first (fill src1 (get_utf8_length n1 src1))
    ∷ second (fill src2 (get_utf8_length n2 src2))
    ∷ []

run_all-copy_string_stores :
    (src dest : Bytes)
    → run_all store (copy_string_stores (length dest) src) dest ≡ copy_string src dest
unfolding store copy_string_stores copy_string
run_all-copy_string_stores src dest = refl

run_all-copy_string2_stores :
    (src1 dest1 src2 dest2 : Bytes)
    → run_all store2 (copy_string2_stores (length dest1) src1 (length dest2) src2) (dest1, dest2)
      ≡ copy_string2 src1 dest1 src2 dest2
unfolding store2 copy_string2_stores copy_string2
run_all-copy_string2_stores src1 dest1 src2 dest2 = refl

-- A store that is interrupted has stored some of its bytes.
abbrev pub TornStore : Store → Bytes → Bytes → Type 0
TornStore o dest mid = Mixed dest (store o dest) mid

abbrev pub TornStore2 : Store2 → Bytes × Bytes → Bytes × Bytes → Type 0
TornStore2 (first o) s mid = TornStore o s.0 mid.0 × (mid.1 ≡ s.1)
TornStore2 (second o) s mid = (mid.0 ≡ s.0) × TornStore o s.1 mid.1

-- What a crash inside `copy_string (src, dest)` can leave in `dest`.
abbrev pub CopyCrash : Bytes → Bytes → Bytes → Type 0
CopyCrash src dest = Interrupted store TornStore (copy_string_stores (length dest) src) dest

-- What a crash inside `copy_string2` can leave in the two buffers.
abbrev pub Copy2Crash : Bytes → Bytes → Bytes → Bytes → Bytes × Bytes → Type 0
Copy2Crash src1 dest1 src2 dest2 =
    Interrupted store2 TornStore2 (copy_string2_stores (length dest1) src1 (length dest2) src2)
      (dest1, dest2)

memset-zeros : (dest : Bytes) → memset dest 0 ≡ replicate (length dest) 0
unfolding memset
memset-zeros dest = refl

-- The new content, up to its first NUL.
abbrev pub stored : Bytes → Bytes → Bytes
stored src dest = until_nul (truncate (length dest) src)

clearing_prefix :
    {dest mid : Bytes} (s : Bytes)
    → c_str dest ≡ ok s
    → Mixed dest (memset dest 0) mid
    → HoldsPrefix mid s
clearing_prefix {dest} s h m = c_str-Mixed_zeros s m (memset-zeros dest) h

copying_prefix :
    (src dest : Bytes) {mid : Bytes}
    → 0 < length dest
    → Mixed (memset dest 0) (copy_string src dest) mid
    → HoldsPrefix mid (stored src dest)
copying_prefix src dest h m =
    let (read, size) = c_str-copy_string src dest h in
    c_str-Mixed_zeros (stored src dest) (Mixed-sym m) (rw size (memset-zeros dest)) read

-- Wherever a crash interrupts `copy_string`, in whatever order its bytes were stored, a non-empty
-- buffer that held a terminated string holds a terminated string: a prefix of the old content or a
-- prefix of the new one.
pub CopyCrash-terminated :
    (src dest : Bytes) {mid : Bytes} (old_content : Bytes)
    → 0 < length dest
    → c_str dest ≡ ok old_content
    → CopyCrash src dest mid
    → HoldsPrefix mid old_content ⊎ HoldsPrefix mid (stored src dest)
unfolding copy_string_stores store copy_string
CopyCrash-terminated src dest s h e (torn m) = inl (clearing_prefix s e m)
CopyCrash-terminated src dest s h e (next (torn m)) = inr (copying_prefix src dest h m)
CopyCrash-terminated src dest s h e (next (next finished)) =
    inr (stored src dest, (c_str-copy_string src dest h).0, IsPrefix-refl (stored src dest))

-- The strings in the two buffers: a beginning of the old key over the old value; no key, and a
-- beginning of the old value; a beginning of the new key, and no value; or the new key over a
-- beginning of the new value.
pub data PairState (key0 value0 key1 value1 : Bytes) (s : Bytes × Bytes) : Type 0 where
  clearing_key : HoldsPrefix s.0 key0 → c_str s.1 ≡ ok value0 → PairState key0 value0 key1 value1 s
  clearing_value : c_str s.0 ≡ ok [] → HoldsPrefix s.1 value0 → PairState key0 value0 key1 value1 s
  keyed : HoldsPrefix s.0 key1 → c_str s.1 ≡ ok [] → PairState key0 value0 key1 value1 s
  valued : c_str s.0 ≡ ok key1 → HoldsPrefix s.1 value1 → PairState key0 value0 key1 value1 s

c_str-zeros : (n : ℕ) → 0 < n → c_str (replicate n 0) ≡ ok []
unfolding c_str
c_str-zeros zero h = elim h [ ]
c_str-zeros (suc n) h = refl

c_str-memset : (dest : Bytes) → 0 < length dest → c_str (memset dest 0) ≡ ok []
c_str-memset dest h = rw (memset-zeros dest) (c_str-zeros (length dest) h)

-- Wherever a crash interrupts `copy_string2`, two non-empty buffers that held terminated strings hold
-- terminated strings, in one of four states: the old value whole under a prefix of the old key, which
-- can be a key that it was not written for; a prefix of the old value under the empty key; the empty
-- value under a prefix of the new key; or a prefix of the new value under the whole new key.
pub Copy2Crash-consistent :
    (key dest1 value dest2 : Bytes) {s : Bytes × Bytes} (key0 value0 : Bytes)
    → 0 < length dest1
    → 0 < length dest2
    → c_str dest1 ≡ ok key0
    → c_str dest2 ≡ ok value0
    → Copy2Crash key dest1 value dest2 s
    → PairState key0 value0 (stored key dest1) (stored value dest2) s
unfolding copy_string2_stores store2 copy_string
Copy2Crash-consistent key dest1 value dest2 key0 value0 h1 h2 e1 e2 (torn (m, e)) =
    clearing_key (clearing_prefix key0 e1 m) (ap c_str e ∙ e2)
Copy2Crash-consistent key dest1 value dest2 key0 value0 h1 h2 e1 e2 (next (torn (e, m))) =
    clearing_value (ap c_str e ∙ c_str-memset dest1 h1) (clearing_prefix value0 e2 m)
Copy2Crash-consistent key dest1 value dest2 key0 value0 h1 h2 e1 e2 (next (next (torn (m, e)))) =
    keyed (copying_prefix key dest1 h1 m) (ap c_str e ∙ c_str-memset dest2 h2)
Copy2Crash-consistent key dest1 value dest2 key0 value0 h1 h2 e1 e2
      (next (next (next (torn (e, m))))) =
    valued (ap c_str e ∙ (c_str-copy_string key dest1 h1).0) (copying_prefix value dest2 h2 m)
Copy2Crash-consistent key dest1 value dest2 key0 value0 h1 h2 e1 e2
      (next (next (next (next finished)))) =
    valued (c_str-copy_string key dest1 h1).0
      (stored value dest2, (c_str-copy_string value dest2 h2).0, IsPrefix-refl (stored value dest2))
