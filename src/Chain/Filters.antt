-- ===== src/Chain/Filters.antt =====
-- A content-filtered export: any selection of the records of a verified chain
-- (sdks/typescript/src/export-bundle-chain-modes.ts).
use veritio.Prelude.{
  ℕ, ◌+◌, ◌≤◌, ◌≡◌, refl, sym, ap, ◌∙◌, ==→≡, ==_iff, String, Option, none, some, List, [], ◌∷◌,
  Bool, true, false, ◌==◌, ◌===◌, ===_iff, same_or_null_iff, keep, map, arith, Bool-cases, inl, inr,
}
use veritio.Prelude.Dict.{Dict, get, set, get-set}
use veritio.Prelude.Results.{ok, Result-cases}
use veritio.Chain.{
  verified, failed, Envelope, Tip, tip_of, tip_after, verify_envelope, verify_from,
  verify_envelopes,
}
use veritio.Chain.Linked.{Extends}
use veritio.Chain.Verdict.{verify_envelope-Passes}
use veritio.Chain.Modes.{
  windowed, filtered, check_link, is_null, verify_scoped_from, verify_scoped_chain,
}
use veritio.Chain.Scopes.{Passes-scoped, full-scoped}

-- A tip of a chain has a hash exactly if it has records.
record IsTip (tip : Tip) : Type 0 where
  start : tip.sequence ≡ 0 → is_null tip.previous_hash ≡ true
  linked : 1 ≤ tip.sequence → is_null tip.previous_hash ≡ false

-- What the walk over the selection knows of a tenant, beside the walk over the whole chain.
abbrev BehindTip : Tip → Option Tip → Type 0
BehindTip full none = Unit
BehindTip full (some tip) =
    (tip.sequence ≤ full.sequence) × (tip.sequence ≡ full.sequence → tip ≡ full)

record Behind (full part : Dict Tip) : Type 0 where
  is_tip : (tenant : String) → IsTip (tip_of full tenant)
  behind : (tenant : String) → BehindTip (tip_of full tenant) (get part tenant)

BehindTip-check_link :
    (full : Tip) (known : Option Tip) (e : Envelope)
    → IsTip full
    → BehindTip full known
    → Extends full e
    → check_link filtered known e ≡ ok tt
unfolding check_link
BehindTip-check_link full none e t b x = elim (Bool-cases (full.sequence == 0)) [
  | inl first ↦ ground (arith, t.start (ground arith), x.sequence, ap is_null x.previous_hash)
  | inr later ↦ ground (arith, t.linked (ground arith), x.sequence, ap is_null x.previous_hash)
]
BehindTip-check_link full (some tip) e t b x = elim (Bool-cases (tip.sequence == full.sequence)) [
  | inl same ↦
      let level : tip.sequence ≡ full.sequence = ==→≡ _ _ same in
      rw (
        (==_iff e.sequence (tip.sequence + 1)).1 (omega (arith, level, x.sequence)),
        (same_or_null_iff e.previous_hash tip.previous_hash).1
            (x.previous_hash ∙ sym (ap (λ u. u.previous_hash) (b.1 level))),
      )
  | inr gap ↦
      ground (arith, t.linked (ground (arith, b.0)), x.sequence, b.0, ap is_null x.previous_hash)
]

tip_after-IsTip : (full : Tip) (e : Envelope) → Extends full e → IsTip (tip_after e)
tip_after-IsTip full e x = record {
  start = λ h. absurd (omega (arith, h, x.sequence));
  linked = λ h. refl;
}

set-IsTip :
    (full : Dict Tip) (tenant other : String) (e : Envelope)
    → Extends (tip_of full tenant) e
    → IsTip (tip_of full other)
    → IsTip (tip_of (set full tenant (tip_after e)) other)
set-IsTip full tenant other e x t = rw (get-set full tenant) (elim (Bool-cases (tenant === other)) [
  | inl same ↦ rw same (tip_after-IsTip (tip_of full tenant) e x)
  | inr apart ↦ rw apart t
])

-- A selected record moves both walks, another one the whole chain's.
kept-Behind :
    (full part : Dict Tip) (tenant : String) (e : Envelope)
    → Behind full part
    → Extends (tip_of full tenant) e
    → Behind (set full tenant (tip_after e)) (set part tenant (tip_after e))
kept-Behind full part tenant e b x = record {
  is_tip = λ t. set-IsTip full tenant t e x (b.is_tip t);
  behind = λ t.
      rw (get-set full tenant, get-set part tenant)
        (elim (Bool-cases (tenant === t)) [
          | inl same ↦ rw same (omega arith, λ h. refl)
          | inr apart ↦ rw apart (b.behind t)
        ]);
}

past :
    (full : Tip) (known : Option Tip) (e : Envelope)
    → BehindTip full known
    → Extends full e
    → BehindTip (tip_after e) known
past full none e b x = tt
past full (some tip) e b x =
    (omega (arith, b.0, x.sequence), λ h. absurd (omega (arith, h, b.0, x.sequence)))

dropped-Behind :
    (full part : Dict Tip) (tenant : String) (e : Envelope)
    → Behind full part
    → Extends (tip_of full tenant) e
    → Behind (set full tenant (tip_after e)) part
dropped-Behind full part tenant e b x = record {
  is_tip = λ t. set-IsTip full tenant t e x (b.is_tip t);
  behind = λ t. rw (get-set full tenant) (elim (Bool-cases (tenant === t)) [
    | inl same ↦
        rw (same, ← (===_iff tenant t).0 same)
          (past (tip_of full tenant) (get part tenant) e (b.behind tenant) x)
    | inr apart ↦ rw apart (b.behind t)
  ]);
}

module _ {R : Type 0} (envelope : R → Envelope) (selects : R → Bool) where
  selection-verified :
      (i j : ℕ) (full part : Dict Tip) (rs : List R)
      → Behind full part
      → verify_from i full (map envelope rs) ≡ verified
      → verify_scoped_from filtered j part (map envelope (keep selects rs)) ≡ verified
  unfolding verify_from verify_scoped_from
  selection-verified i j full part [] b h = refl
  selection-verified i j full part (r ∷ rs) b h =
      elim (Result-cases (verify_envelope full (envelope r))) [
        | inl (next, taken) ↦
            let e = envelope r in
            let (tenant, p, moved) = verify_envelope-Passes full e next taken in
            let rest : verify_from (i + 1) next (map envelope rs) ≡ verified =
              rw (taken, verify_from) at h in
            elim (Bool-cases (selects r)) [
              | inl kept ↦
                  rw
                    (
                      kept,
                      Passes-scoped filtered full part e tenant p (
                          BehindTip-check_link (tip_of full tenant) (get part tenant) e
                            (b.is_tip tenant) (b.behind tenant) p.extends),
                      verify_scoped_from,
                    )
                    (selection-verified (i + 1) (j + 1) (set full tenant (tip_after e))
                      (set part tenant (tip_after e)) rs
                      (kept-Behind full part tenant e b p.extends) (rw moved at rest))
              | inr dropped ↦ rw dropped (
                  selection-verified (i + 1) j (set full tenant (tip_after e)) part rs
                    (dropped-Behind full part tenant e b p.extends) (rw moved at rest))
            ]
        | inr (reason, refused) ↦
            let stopped : failed i reason ≡ verified = rw (refused, verify_from) at h in cc
      ]

new-Behind : Behind [] []
unfolding get
new-Behind = record {
  is_tip = λ t. record { start = λ h. refl; linked = λ h. absurd (omega (arith, h)) };
  behind = λ t. tt;
}

-- Of records whose envelopes the strict verifier accepts, all together are accepted under the
-- windowed scope, and any selection, in the same order, under the filtered scope.
pub selection_verifies :
    {R : Type 0} (envelope : R → Envelope) (selects : R → Bool) (records : List R)
    → verify_envelopes (map envelope records) ≡ verified
    → (verify_scoped_chain windowed (map envelope records) ≡ verified)
      × (verify_scoped_chain filtered (map envelope (keep selects records)) ≡ verified)
selection_verifies envelope selects records h = (
  full-scoped windowed 0 [] (map envelope records) h,
  selection-verified envelope selects 0 0 [] [] records new-Behind h,
)
