-- ===== src/Client/Validation/Checks.antt =====
-- Chains of checks in validation.rs: when they accept.
use roughenough.Prelude.{◌≡◌, refl, Bool, true, false, not, ◌≢◌}
use roughenough.Protocol.Error
use roughenough.Protocol.Error.{Result}
use roughenough.Client.Validation.{
  ValidationError, Verdict, crashed, rejected, accepted, ◌>>=◌, ◌>>◌, convert, reject_if,
}

module _ {A B : Type 0} where
  -- What a chain that accepts went through.
  pub accepted-bind :
      (m : Verdict A) (k : A → Verdict B) (b : B)
      → (m >>= k) ≡ accepted b
      → (a : A) × (m ≡ accepted a) × (k a ≡ accepted b)
  accepted-bind crashed k b h = cc
  accepted-bind (rejected e) k b h = cc
  accepted-bind (accepted a) k b h = (a, refl, h)

  pub bind-accepted :
      (m : Verdict A) (k : A → Verdict B) (a : A) (b : B)
      → m ≡ accepted a
      → k a ≡ accepted b
      → (m >>= k) ≡ accepted b
  bind-accepted m k a b h h' = rw h h'

pub accepted-then :
    {B : Type 0} (m : Verdict (Unit {0})) (k : Verdict B) (b : B)
    → (m >> k) ≡ accepted b
    → (m ≡ accepted tt) × (k ≡ accepted b)
accepted-then crashed k b h = cc
accepted-then (rejected e) k b h = cc
accepted-then (accepted tt) k b h = (refl, h)

pub then-accepted :
    {B : Type 0} (m : Verdict (Unit {0})) (k : Verdict B) (b : B)
    → m ≡ accepted tt
    → k ≡ accepted b
    → (m >> k) ≡ accepted b
then-accepted m k b h h' = rw h h'

pub accepted-reject_if : (b : Bool) (e : ValidationError) → reject_if b e ≡ accepted tt → b ≡ false
accepted-reject_if true e h = cc
accepted-reject_if false e h = refl

pub reject_if-accepted : (b : Bool) (e : ValidationError) → b ≡ false → reject_if b e ≡ accepted tt
reject_if-accepted b e h = rw h

pub accepted-reject_unless :
    (b : Bool) (e : ValidationError) → reject_if (not b) e ≡ accepted tt → b ≡ true
accepted-reject_unless true e h = refl
accepted-reject_unless false e h = cc

pub reject_unless-accepted :
    (b : Bool) (e : ValidationError) → b ≡ true → reject_if (not b) e ≡ accepted tt
reject_unless-accepted b e h = rw h

pub accepted-convert : {A : Type 0} (r : Result A) (a : A) → convert r ≡ accepted a → r ≡ Error.ok a
accepted-convert Error.panic a h = cc
accepted-convert (Error.err e) a h = cc
accepted-convert (Error.ok b) a h = cc

pub convert-accepted : {A : Type 0} (r : Result A) (a : A) → r ≡ Error.ok a → convert r ≡ accepted a
convert-accepted r a h = rw h

-- Chains that do not crash.
module _ {A B : Type 0} where
  pub bind-ne-crashed :
      (m : Verdict A) (k : A → Verdict B)
      → m ≢ crashed
      → ((a : A) → m ≡ accepted a → k a ≢ crashed)
      → (m >>= k) ≢ crashed
  bind-ne-crashed crashed k h g e = h refl
  bind-ne-crashed (rejected x) k h g e = cc
  bind-ne-crashed (accepted a) k h g e = g a refl e

pub reject_if-ne-crashed : (b : Bool) (e : ValidationError) → reject_if b e ≢ crashed
reject_if-ne-crashed true e h = cc
reject_if-ne-crashed false e h = cc

pub convert-ne-crashed : {A : Type 0} (r : Result A) → r ≢ Error.panic → convert r ≢ crashed
convert-ne-crashed Error.panic h e = h refl
convert-ne-crashed (Error.err x) h e = cc
convert-ne-crashed (Error.ok a) h e = cc
