-- ===== src/Common/Steady.antt =====
-- Parsers that never report that a loop ran out of fuel, and never lengthen the stream. One rule
-- for each way to build a parser.
use Prim.Native.Nat.{ℕ, ◌≤◌}
use mathlib.Core.Path.{◌≡◌}
use mathlib.Core.Logic.{◌≢◌, inl, inr}
use mathlib.Core.Bool.{Bool, true, false}
use native.Mathlib.Omega.{arith}
use rgx.Common.Lists.{length, length-drop}
use rgx.Common.Results.{Error, Result, ok, err, out_of_fuel, bail_if}
use rgx.Common.Streams.{
  >>=-eq-ok, >>=-eq-err, Parser, Stream, pure, lift, ◌>>=◌, read_exact, read_le, skip,
  stream_position,
}

pub record Steady {A : Type 0} (m : Parser A) : Type 0 where
  pub fueled : (s : Stream) → m s ≢ err out_of_fuel
  pub shrinks : (s s' : Stream) (a : A) → m s ≡ ok (a, s') → length s'.rest ≤ length s.rest

pub Steady-pure : {A : Type 0} (a : A) → Steady (pure a)
Steady-pure a = record { fueled = λ s e. cc; shrinks = λ s s' b e. ground arith }

pub Steady-lift : {A : Type 0} (r : Result A) → r ≢ err out_of_fuel → Steady (lift r)
Steady-lift (ok a) h = record { fueled = λ s e. cc; shrinks = λ s s' b e. ground arith }
Steady-lift (err e) h = record { fueled = λ s p. h (ground arith); shrinks = λ s s' b p. cc }

bind-fueled :
    {A B : Type 0} (m : Parser A) (f : A → Parser B) (s : Stream)
    → Steady m
    → ((a : A) → Steady (f a))
    → (m >>= f) s ≢ err out_of_fuel
bind-fueled m f s sm sf p = elim (>>=-eq-err m f s p) [
  | inl e ↦ sm.fueled s e
  | inr (a, t, e, q) ↦ (sf a).fueled t q
]

pub Steady-bind :
    {A B : Type 0} (m : Parser A) (f : A → Parser B)
    → Steady m
    → ((a : A) → Steady (f a))
    → Steady (m >>= f)
Steady-bind m f sm sf = record {
  fueled = λ s. bind-fueled m f s sm sf;
  shrinks = λ s s' b e.
      let (a, t, p, q) = >>=-eq-ok m f s s' b e in
      omega (arith, sm.shrinks s t a p, (sf a).shrinks t s' b q);
}

pub Steady-read_exact : (n : ℕ) → Steady (read_exact n)
unfolding read_exact
Steady-read_exact n = record {
  fueled = λ s e. ground arith;
  shrinks = λ s s' a e. ground (arith, length-drop n s.rest);
}

pub Steady-skip : (n : ℕ) → Steady (skip n)
unfolding skip
Steady-skip n = record {
  fueled = λ s e. cc;
  shrinks = λ s s' a e. ground (arith, length-drop n s.rest);
}

pub Steady-stream_position : Steady stream_position
unfolding stream_position
Steady-stream_position = record { fueled = λ s e. cc; shrinks = λ s s' a e. ground arith }

pub Steady-read_le : (w : ℕ) → Steady (read_le w)
unfolding read_le
Steady-read_le w = Steady-bind _ _ (Steady-read_exact w) (λ a. Steady-pure _)

pub bail_if-fueled : (b : Bool) (e : Error) → e ≢ out_of_fuel → bail_if b e ≢ err out_of_fuel
bail_if-fueled true e h = λ p. h (ground arith)
bail_if-fueled false e h = λ p. cc
