-- ===== src/Kube/Keeps.antt =====
-- Which calls an action adds to the history: `Keeps P m` says that `m` leaves a history with the
-- property `P` whenever it finds one, whether it returns, fails or panics.
use vynil.Prelude.{Bool, true, false, [], ◌∷◌, ◌≡◌, refl, any, if◌then◌else◌, All, arith}
use vynil.Result.{Error, Result, ok, err, panic}
use vynil.Kube.{Call, History, Kube, pure, fail, lift, call, attempt, attempted, continue, ◌>>=◌}

pub record Keeps {ℓ} {A : Type ℓ} (Inv : History → Type 0) (action : Kube A) : Type 0 where
  pub at : (before : History) → Inv before → Inv (action before).1

-- No call in the history is of this sort.
abbrev pub IsFree : (Call → Bool) → History → Type 0
IsFree sort h = any sort h ≡ false

module _ {ℓ} {A : Type ℓ} {Inv : History → Type 0} where
  pub Keeps-attempt : (action : Kube A) → Keeps Inv action → Keeps Inv (attempt action)
  unfolding attempt
  Keeps-attempt action kept = record { at = λ before inv. kept.at before inv }

  pub Keeps-if :
      (test : Bool) (first second : Kube A)
      → (test ≡ true → Keeps Inv first)
      → (test ≡ false → Keeps Inv second)
      → Keeps Inv (if test then first else second)
  Keeps-if true first second kept kept' = kept refl
  Keeps-if false first second kept kept' = kept' refl

  pub Keeps-lift : (answer : Result A) → Keeps Inv (lift answer)
  unfolding lift
  Keeps-lift answer = record { at = λ before inv. inv }

  pub Keeps-fail : (error : Error) → Keeps Inv (fail {A = A} error)
  unfolding fail
  Keeps-fail error = record { at = λ before inv. inv }

  pub Keeps-pure : (value : A) → Keeps Inv (pure value)
  unfolding pure
  Keeps-pure value = record { at = λ before inv. inv }

module _ {ℓ} {A : Type ℓ} (sort : Call → Bool) where
  pub Keeps-call :
      (c : Call) (answer : History → Result A)
      → sort c ≡ false
      → Keeps (IsFree sort) (call c answer)
  unfolding call
  Keeps-call c answer other = record { at = λ h p. ground arith }

module _ {ℓ} {A : Type ℓ} (Q : Call → Type 0) where
  pub Keeps-call-All :
      (c : Call) (answer : History → Result A) → Q c → Keeps (All Q) (call c answer)
  unfolding call
  Keeps-call-All c answer q = record { at = λ h p. (q, p) }

module _ {ℓ κ} {A : Type ℓ} {B : Type κ} {P : History → Type 0} where
  Keeps-continue :
      (r : Result A) (f : A → Kube B) (h : History)
      → ((a : A) → Keeps P (f a))
      → P h
      → P (continue r f h).1
  Keeps-continue (ok a) f h kf p = (kf a).at h p
  Keeps-continue (err e) f h kf p = p
  Keeps-continue panic f h kf p = p

  pub Keeps-bind :
      (m : Kube A) (f : A → Kube B) → Keeps P m → ((a : A) → Keeps P (f a)) → Keeps P (m >>= f)
  unfolding ◌>>=◌
  Keeps-bind m f km kf = record {
    at = λ h p. let (r, h') = m h in Keeps-continue r f h' kf (km.at h p);
  }

-- A bind, where what the first action returns is known.
module _ {ℓ κ} {A : Type ℓ} {B : Type κ} {P : History → Type 0} where
  Keeps-continue_returned :
      (r : Result A) (f : A → Kube B) (h : History)
      → ((a : A) → r ≡ ok a → Keeps P (f a))
      → P h
      → P (continue r f h).1
  Keeps-continue_returned (ok a) f h kf p = (kf a refl).at h p
  Keeps-continue_returned (err e) f h kf p = p
  Keeps-continue_returned panic f h kf p = p

  pub Keeps-bind_returned :
      (m : Kube A) (f : A → Kube B)
      → Keeps P m
      → ((h : History) (a : A) → (m h).0 ≡ ok a → Keeps P (f a))
      → Keeps P (m >>= f)
  unfolding ◌>>=◌
  Keeps-bind_returned m f km kf = record {
    at = λ h p. Keeps-continue_returned (m h).0 f (m h).1 (kf h) (km.at h p);
  }

-- The two ways to say that an action makes no call of a sort.
module _ (sort : Call → Bool) where
  IsFree-All : (h : History) → All (λ x. sort x ≡ false) h → IsFree sort h
  IsFree-All [] p = refl
  IsFree-All (x ∷ h) p = ground (arith, p.0, IsFree-All h p.1)

  All-IsFree : (h : History) → IsFree sort h → All (λ x. sort x ≡ false) h
  All-IsFree [] p = tt
  All-IsFree (x ∷ h) p = (ground (arith, p), All-IsFree h (ground (arith, p)))

  pub Keeps-IsFree {ℓ} :
      {A : Type ℓ} (m : Kube A) → Keeps (All (λ x. sort x ≡ false)) m → Keeps (IsFree sort) m
  Keeps-IsFree m keeps = record { at = λ h p. IsFree-All (m h).1 (keeps.at h (All-IsFree h p)) }

-- An attempt that returned has the result as its value, and the result is no panic.
module _ {ℓ} {A : Type ℓ} where
  attempted-ok : (r a : Result A) → attempted r ≡ ok a → (r ≡ a) × ¬ (a ≡ panic)
  attempted-ok (ok b) a h = (cc, λ p. cc)
  attempted-ok (err e) a h = (cc, λ p. cc)
  attempted-ok panic a h = cc

  pub Returns-attempt :
      (m : Kube A) (h : History) (a : Result A)
      → (attempt m h).0 ≡ ok a
      → ((m h).0 ≡ a) × ¬ (a ≡ panic)
  unfolding attempt
  Returns-attempt m h a returned = attempted-ok (m h).0 a returned

-- A bind that returned ran both of its actions.
module _ {ℓ κ} {A : Type ℓ} {B : Type κ} where
  Returns-continue :
      (r : Result A) (f : A → Kube B) (h : History) (b : B)
      → (continue r f h).0 ≡ ok b
      → (a : A) × (r ≡ ok a) × ((f a h).0 ≡ ok b)
  Returns-continue (ok a) f h b returned = (a, refl, returned)
  Returns-continue (err e) f h b returned = cc
  Returns-continue panic f h b returned = cc

  pub Returns-bind :
      (m : Kube A) (f : A → Kube B) (h : History) (b : B)
      → ((m >>= f) h).0 ≡ ok b
      → (a : A) × ((m h).0 ≡ ok a) × ((f a (m h).1).0 ≡ ok b)
  unfolding ◌>>=◌
  Returns-bind m f h b returned = Returns-continue (m h).0 f (m h).1 b returned

-- What follows an action with no call leaves its history.
module _ {ℓ κ} {A : Type ℓ} {B : Type κ} where
  continue-pure : (r : Result A) (b : B) (h : History) → (continue r (λ _. pure b) h).1 ≡ h
  unfolding pure
  continue-pure (ok a) b h = refl
  continue-pure (err e) b h = refl
  continue-pure panic b h = refl

  pub then-pure : (m : Kube A) (b : B) (h : History) → ((m >>= λ _. pure b) h).1 ≡ (m h).1
  unfolding ◌>>=◌
  then-pure m b h = continue-pure (m h).0 b (m h).1

-- If a call of this sort is there only after a bind whose first action makes none, then that action
-- returned, and the rest made the call.
module _ {ℓ κ} {A : Type ℓ} {B : Type κ} (sort : Call → Bool) where
  Reaches-continue :
      (r : Result A) (f : A → Kube B) (h : History)
      → IsFree sort h
      → any sort (continue r f h).1 ≡ true
      → (a : A) × (r ≡ ok a) × (any sort (f a h).1 ≡ true)
  Reaches-continue (ok a) f h free reached = (a, refl, reached)
  Reaches-continue (err e) f h free reached = cc
  Reaches-continue panic f h free reached = cc

  pub Reaches-bind :
      (m : Kube A) (f : A → Kube B) (h : History)
      → Keeps (IsFree sort) m
      → IsFree sort h
      → any sort ((m >>= f) h).1 ≡ true
      → (a : A) × ((m h).0 ≡ ok a) × IsFree sort (m h).1 × (any sort (f a (m h).1).1 ≡ true)
  unfolding ◌>>=◌
  Reaches-bind m f h keeps free reached =
      let free' = keeps.at h free in
      let (a, returned, later) = Reaches-continue (m h).0 f (m h).1 free' reached in
      (a, returned, free', later)

pub ruleset keeps_rules =
    (Keeps-pure, Keeps-fail, Keeps-lift, Keeps-attempt, Keeps-if, Keeps-call, Keeps-bind)
