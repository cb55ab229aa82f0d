-- ===== src/Base/Spans.antt =====
-- The longest prefix of a list that passes a test, and what stands behind it.
use mathlib.Core.Path.{◌≡◌, refl, ◌∙◌}
use mathlib.Core.Bool.{Bool, true, false}
use mathlib.Core.List.{List, [], ◌∷◌, ◌++◌}
use native.Mathlib.Omega.{arith}
use sys_net_mon.Base.Tests.{if◌then◌else◌}
use sys_net_mon.Base.Lists.{All}

module _ {ℓ} {A : Type ℓ} (p : A → Bool) where
  unfoldable pub take_while : List A → List A
  take_while [] = []
  take_while (c ∷ s) = if p c then c ∷ take_while s else []

  unfoldable pub drop_while : List A → List A
  drop_while [] = []
  drop_while (c ∷ s) = if p c then drop_while s else c ∷ s

  -- The list is empty, or its first element fails the test.
  abbrev pub Stops : List A → Type 0
  Stops [] = Unit
  Stops (c ∷ s) = p c ≡ false

  -- Each element passes the test.
  abbrev pub Each : List A → Type 0
  Each = All (λ c. p c ≡ true)

  pub take_while-append-drop_while : (s : List A) → take_while s ++ drop_while s ≡ s
  unfolding take_while drop_while
  take_while-append-drop_while [] = refl
  take_while-append-drop_while (c ∷ s) = ground (arith, take_while-append-drop_while s)

  pub take_while-Each : (s : List A) → Each (take_while s)
  unfolding take_while
  take_while-Each [] = tt
  take_while-Each (c ∷ s) = ground (arith, take_while-Each s)

  pub drop_while-Stops : (s : List A) → Stops (drop_while s)
  unfolding drop_while
  drop_while-Stops [] = tt
  drop_while-Stops (c ∷ s) = ground (arith, drop_while-Stops s)

  pub drop_while_stopped : (s : List A) → Stops s → drop_while s ≡ s
  unfolding drop_while
  drop_while_stopped [] h = refl
  drop_while_stopped (c ∷ s) h = ground arith

  pub take_while_stopped : (s : List A) → Stops s → take_while s ≡ []
  unfolding take_while
  take_while_stopped [] h = refl
  take_while_stopped (c ∷ s) h = ground arith

  pub drop_while-append : (s t : List A) → Each s → drop_while (s ++ t) ≡ drop_while t
  unfolding drop_while
  drop_while-append [] t h = refl
  drop_while-append (c ∷ s) t (hc, hs) = ground (arith, drop_while-append s t hs)

  pub take_while-append : (s t : List A) → Each s → Stops t → take_while (s ++ t) ≡ s
  unfolding take_while
  take_while-append [] t h stop = take_while_stopped t stop
  take_while-append (c ∷ s) t (hc, hs) stop = ground (arith, take_while-append s t hs stop)

  -- A prefix that passes, before a list that stops it, is cut off exactly.
  pub drop_while_exact : (s t : List A) → Each s → Stops t → drop_while (s ++ t) ≡ t
  drop_while_exact s t h stop = drop_while-append s t h ∙ drop_while_stopped t stop

  pub drop_while_all : (s : List A) → Each s → drop_while s ≡ []
  unfolding drop_while
  drop_while_all [] h = refl
  drop_while_all (c ∷ s) (hc, hs) = ground (arith, drop_while_all s hs)

  pub drop_while-eq-nil : (s : List A) → drop_while s ≡ [] → Each s
  unfolding drop_while
  drop_while-eq-nil [] h = tt
  drop_while-eq-nil (c ∷ s) h = ground (arith, drop_while-eq-nil s)

  pub Stops-append_left : (s t : List A) → Stops (s ++ t) → Stops s
  Stops-append_left [] t h = tt
  Stops-append_left (c ∷ s) t h = h
