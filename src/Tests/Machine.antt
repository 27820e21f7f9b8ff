-- ===== src/Tests/Machine.antt =====
-- A virtual machine with a heap of strings, arrays and spans, for the theorems on the binding.
use firebase_telemetry_persi.Common.{
  true, subst, ℕ, ◌≡◌, Bool-cases, inl, inr, ◌==◌, ==_false→ne, Option, none, some, List, [], ◌∷◌,
  ◌++◌, length, replicate, set, get_elem?,
}
use firebase_telemetry_persi.CopyString.{Bytes}
use firebase_telemetry_persi.CopyString.Buffers.{until_nul, NulFree}
use firebase_telemetry_persi.Android.Java.{Jni, IsJava, World, Ref, SpanArgs}
use firebase_telemetry_persi.Android.ClassCache.{SpanJClassCache}

pub data Object : Type 0 where
  a_string : Bytes → Object
  an_array : List (Option Ref) → Object
  a_span : SpanArgs → Object

-- A reference is a place in the heap.
abbrev pub Heap : Type 0
Heap = List Object

abbrev pub allocate : Object → Heap → Option Ref × Heap
allocate o heap = (some (length heap), heap ++ (o ∷ []))

abbrev chars_of : Option Object → Option Bytes
chars_of (some (a_string s)) = some (until_nul s)
chars_of o = none

abbrev elements_of : Option Object → List (Option Ref)
elements_of (some (an_array es)) = es
elements_of o = []

abbrev length_of : Option Bytes → Option ℕ
length_of none = none
length_of (some s) = some (length s)

abbrev element : List (Option Ref) → ℕ → Option Ref
element es i = elim (get_elem? es i) [ none ↦ none | some r ↦ r ]

abbrev pub machine : Jni
machine = record {
  State = Heap;
  new_string_utf = λ chars heap. allocate (a_string chars) heap;
  get_string_utf_chars = λ r heap. chars_of (get_elem? heap r);
  get_string_utf_length = λ r heap. length_of (chars_of (get_elem? heap r));
  new_object_array = λ n class heap. allocate (an_array (replicate n none)) heap;
  get_array_length = λ r heap. length (elements_of (get_elem? heap r));
  get_object_array_element = λ r i heap. (element (elements_of (get_elem? heap r)) i, heap);
  set_object_array_element =
      λ r i e heap. set heap r (an_array (set (elements_of (get_elem? heap r)) i (some e)));
  call_static_object_method = λ class method args heap. allocate (a_span args) heap;
}

until_nul-NulFree : (s : Bytes) → NulFree (until_nul s)
unfolding until_nul
until_nul-NulFree [] = tt
until_nul-NulFree (b ∷ s) = elim (Bool-cases (b == 0)) [
  | inl z ↦ rw z tt
  | inr z ↦ rw z (==_false→ne b 0 z, until_nul-NulFree s)
]

chars_of-NulFree : (o : Option Object) (chars : Bytes) → chars_of o ≡ some chars → NulFree chars
chars_of-NulFree none chars e = absurd (cc)
chars_of-NulFree (some (a_string s)) chars e =
    let same : until_nul s ≡ chars = cc in subst NulFree same (until_nul-NulFree s)
chars_of-NulFree (some (an_array es)) chars e = absurd (cc)
chars_of-NulFree (some (a_span args)) chars e = absurd (cc)

pub machine-IsJava : IsJava machine
machine-IsJava = record {
  utf_length = λ r heap chars e. rw e;
  nul_free = λ r heap chars e. chars_of-NulFree (get_elem? heap r) chars e;
}

-- "id" and "9", an array of the two, and the classes of spans and strings.
abbrev pub heap : Heap
heap = a_string (105 ∷ 100 ∷ []) ∷ a_string (57 ∷ []) ∷ an_array (some 0 ∷ some 1 ∷ []) ∷ []

abbrev pub world : World machine
world = record { state = heap; locals = 0; peak = 0 }

abbrev pub cache : SpanJClassCache
cache = record { vm = true; span_class = some 10; string_class = some 11; span_create = some 12 }
