-- ===== src/Chain/Linked.antt =====
-- What a verified chain is, without the verifier: the records of each tenant, read alone, form one
-- gapless chain.
use veritio.Prelude.{◌+◌, ◌≡◌, refl, String, some, List, [], ◌∷◌, ◌++◌, Bool, same_or_null, keep}
use veritio.Protocol.{truthy, sha256_algorithm, json_v1}
use veritio.Chain.{Envelope, Tip, tip_after}

pub record IsSupported (e : Envelope) : Type 0 where
  pub tenant : String
  pub scoped : truthy e.tenant_id ≡ some tenant
  pub algorithm : e.hash_algorithm ≡ sha256_algorithm
  pub canonical : e.canonicalization ≡ json_v1

-- Each record has the next number, the hash of the one before, and its own recomputed hash.
pub record Extends (tip : Tip) (e : Envelope) : Type 0 where
  pub sequence : e.sequence ≡ tip.sequence + 1
  pub previous_hash : e.previous_hash ≡ tip.previous_hash
  pub hash : e.hash ≡ e.recomputed_hash

abbrev pub Linked : Tip → List Envelope → Type 0
Linked tip [] = Unit
Linked tip (e ∷ es) = Extends tip e × Linked (tip_after e) es

unfoldable pub is_of : String → Envelope → Bool
is_of tenant e = same_or_null e.tenant_id (some tenant)

abbrev pub of_tenant : String → List Envelope → List Envelope
of_tenant tenant es = keep (is_of tenant) es

-- The tip that a chain ends in.
abbrev pub end_of : Tip → List Envelope → Tip
end_of tip [] = tip
end_of tip (e ∷ es) = end_of (tip_after e) es

pub Linked-append :
    (tip : Tip) (xs ys : List Envelope)
    → Linked tip xs
    → Linked (end_of tip xs) ys
    → Linked tip (xs ++ ys)
Linked-append tip [] ys h k = k
Linked-append tip (x ∷ xs) ys h k = (h.0, Linked-append (tip_after x) xs ys h.1 k)

pub end_of-append :
    (tip : Tip) (xs ys : List Envelope) → end_of tip (xs ++ ys) ≡ end_of (end_of tip xs) ys
end_of-append tip [] ys = refl
end_of-append tip (x ∷ xs) ys = end_of-append (tip_after x) xs ys
