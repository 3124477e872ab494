-- ===== src/Chain/Scopes.antt =====
-- How the chain scopes of sdks/typescript/src/export-bundle-chain-modes.ts compare: what the strict
-- verifier accepts, a window accepts, and what a window accepts, a filter accepts.
use veritio.Prelude.{
  ℕ, ◌+◌, ◌≡◌, refl, sym, String, List, [], ◌∷◌, false, ltb, ==_iff, ===_iff, same_or_null_iff,
  arith, Option-cases, inl, inr,
}
use veritio.Prelude.Dict.{Dict, get, set}
use veritio.Prelude.Results.{ok, Result-cases}
use veritio.Chain.{
  verified, failed, Envelope, Tip, genesis, tip_of, tip_after, verify_envelope, verify_from,
}
use veritio.Chain.Linked.{Extends}
use veritio.Chain.Verdict.{Passes, verify_envelope-Passes}
use veritio.Chain.Modes.{ChainScope, check_link, verify_scoped_envelope, verify_scoped_from}

-- A record that has its tenant's link passes.
pub Passes-scoped :
    (scope : ChainScope) (states part : Dict Tip) (e : Envelope) (tenant : String)
    → Passes states e tenant
    → check_link scope (get part tenant) e ≡ ok tt
    → verify_scoped_envelope scope part e ≡ ok (set part tenant (tip_after e))
unfolding verify_scoped_envelope
Passes-scoped scope states part e tenant p linked = rw (
  p.scoped,
  (===_iff _ _).1 p.algorithm,
  (===_iff _ _).1 p.canonical,
  positive,
  (===_iff _ _).1 (sym p.extends.hash),
  linked,
)
  where
    positive : ltb e.sequence 1 ≡ false
    positive = ground (arith, p.extends.sequence)

-- On the tip of the full chain.
Extends-check_link :
    (scope : ChainScope) (states : Dict Tip) (e : Envelope) (tenant : String)
    → Extends (tip_of states tenant) e
    → check_link scope (get states tenant) e ≡ ok tt
unfolding check_link
Extends-check_link scope states e tenant x = elim (Option-cases (get states tenant)) [
  | inl missing ↦
      let x' : Extends genesis e = rw missing at x in
      rw (missing, check_link, x'.sequence, x'.previous_hash)
  | inr (tip, found) ↦
      let x' : Extends tip e = rw found at x in
      rw (found, check_link, (==_iff _ _).1 x'.sequence, (same_or_null_iff _ _).1 x'.previous_hash)
]

pub full-scoped :
    (scope : ChainScope) (i : ℕ) (states : Dict Tip) (es : List Envelope)
    → verify_from i states es ≡ verified
    → verify_scoped_from scope i states es ≡ verified
unfolding verify_from verify_scoped_from
full-scoped scope i states [] h = refl
full-scoped scope i states (e ∷ es) h = elim (Result-cases (verify_envelope states e)) [
  | inl (next, taken) ↦
      let (tenant, p, moved) = verify_envelope-Passes states e next taken in
      let rest : verify_from (i + 1) next es ≡ verified = rw (taken, verify_from) at h in
      rw
        (
          Passes-scoped scope states states e tenant p
              (Extends-check_link scope states e tenant p.extends),
          verify_scoped_from,
        )
        (full-scoped scope (i + 1) (set states tenant (tip_after e)) es (rw moved at rest))
  | inr (reason, refused) ↦
      let stopped : failed i reason ≡ verified = rw (refused, verify_from) at h in cc
]
