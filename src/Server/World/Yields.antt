-- ===== src/Server/World/Yields.antt =====
-- What is known of the value that an action of the server returns.
use vynil.Prelude.{Bool, true, false, ◌≡◌, refl, subst, if◌then◌else◌}
use vynil.Server.{DiagError}
use vynil.Server.World.{ok, History, Diag, pure, fail, ◌>>=◌}
use vynil.Server.World.Keeps.{returns-bind}

pub record Yields {ℓ} {A : Type ℓ} (P : A → Type 0) (m : Diag A) : Type ℓ where
  pub at : (h : History) (a : A) → (m h).0 ≡ ok a → P a

module _ {ℓ} {A : Type ℓ} {P : A → Type 0} where
  pub Yields-pure : (a : A) → P a → Yields P (pure a)
  unfolding pure
  Yields-pure a p = record { at = λ h b returned. subst P (ok-injective returned) p }
    where
      ok-injective : {x y : A} → ok x ≡ ok y → x ≡ y
      ok-injective same = cc

  pub Yields-fail : (e : DiagError) → Yields P (fail e)
  unfolding fail
  Yields-fail e = record { at = λ h b returned. cc }

  pub Yields-if_known :
      (test : Bool) (m n : Diag A)
      → (test ≡ true → Yields P m)
      → Yields P n
      → Yields P (if test then m else n)
  Yields-if_known true m n ym yn = ym refl
  Yields-if_known false m n ym yn = yn

  pub Yields-if :
      (test : Bool) (m n : Diag A) → Yields P m → Yields P n → Yields P (if test then m else n)
  Yields-if true m n ym yn = ym
  Yields-if false m n ym yn = yn

module _ {ℓ κ} {A : Type ℓ} {B : Type κ} {P : B → Type 0} where
  -- Only what comes last matters.
  pub Yields-bind : (m : Diag A) (f : A → Diag B) → ((a : A) → Yields P (f a)) → Yields P (m >>= f)
  Yields-bind m f yf = record {
    at = λ h b returned.
        let (a, _, later) = returns-bind m f h b returned in (yf a).at (m h).1 b later;
  }

  -- What comes first gives a value of which something is known.
  pub Yields-bind_with :
      {Q : A → Type 0} (m : Diag A) (f : A → Diag B)
      → Yields Q m
      → ((a : A) → Q a → Yields P (f a))
      → Yields P (m >>= f)
  Yields-bind_with m f ym yf = record {
    at = λ h b returned.
        let (a, first, later) = returns-bind m f h b returned in
        (yf a (ym.at h a first)).at (m h).1 b later;
  }

pub ruleset yield_rules = (Yields-pure, Yields-fail, Yields-if, Yields-bind)
