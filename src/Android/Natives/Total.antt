-- ===== src/Android/Natives/Total.antt =====
-- src/android/android_span_data.cpp: no call of a native method fails, and each does what it is to the
-- store.
use firebase_telemetry_persi.Android.Natives.Carried.{weaken, IsNative}
use firebase_telemetry_persi.Android.Natives.Once.{call_native-Once}
use firebase_telemetry_persi.Android.Natives.Follows.{nothing, Follows}
use firebase_telemetry_persi.Common.{
  ◌++◌, suc, ◌∷◌, length, ℕ, ◌+◌, ◌^◌, ◌<◌, ◌≡◌, refl, ◌∙◌, some, List, [], ok, arith, All,
}
use firebase_telemetry_persi.Layout.{MmapSize}
use firebase_telemetry_persi.MutableSpanData.History.{run, Call, Sound, IsCall}
use firebase_telemetry_persi.Context.{Context}
use firebase_telemetry_persi.Android.Java.{Jni, World, IsJava, >>=-run}
use firebase_telemetry_persi.Android.ClassCache.{SpanJClassCache}
use firebase_telemetry_persi.Android.Natives.{NativeCall, call_native, call_natives}

-- Where the virtual machine keeps to the documentation of strings: on a handle that is not null and
-- whose mutable data meets the invariant, every sequence of calls of the native methods other than
-- `shutdown_native` returns, whatever strings and arrays Java gives, null included, and whichever of its
-- functions fail. The calls are to the store what a sequence of calls of `MutableSpanData` is that
-- follows them: a call before the recovered spans were fetched is ignored, and after that each adds,
-- ends or changes the span of the given id, with strings no longer than their bounds. The store meets
-- the invariant again. Java does not give the span id 0, and the mark counter and the number of calls
-- together stay below 2^64.
pub call_natives_total :
    {J : Jni}
    → IsJava J
    → (cache : SpanJClassCache) (size : MmapSize) (n : ℕ) (c : Context) (calls : List NativeCall)
      (w : World J)
    → Sound size n c.mutable_span_data
    → All IsNative calls
    → n + length calls < 2 ^ 64
    → (c' : Context) × (w' : World J) × (hs : List Call) × (call_natives cache (some c) calls w
        ≡ ok (some c', w'))
      × Follows c.is_recovered calls hs
      × All IsCall hs
      × (run c.mutable_span_data hs ≡ ok c'.mutable_span_data)
      × Sound size (n + length calls) c'.mutable_span_data
unfolding call_natives run
call_natives_total laws cache size n c [] w s h bound =
    (c, w, [], refl, nothing, tt, refl, weaken size n (n + 0) c.mutable_span_data (omega arith) s)
call_natives_total laws cache size n c (call ∷ cs) w s h bound =
    let (c1, w1, hs1, e1, explains, s1) =
      call_native-Once laws cache size n c w s call h.0 (omega arith) in
    let (c', w', hs, e, follows, valid, ran, s') =
      call_natives_total laws cache size (n + 1) c1 cs w1 s1 h.1 (omega arith) in
    let (follows', valid', ran') = explains cs hs c'.mutable_span_data (follows, valid, ran) in
    (
      c',
      w',
      hs1 ++ hs,
      >>=-run (call_native cache (some c) call) _ w e1 ∙ e,
      follows',
      valid',
      ran',
      weaken size (n + 1 + length cs) (n + suc (length cs)) c'.mutable_span_data (omega arith) s',
    )
