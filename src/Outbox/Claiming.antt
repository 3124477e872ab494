-- ===== src/Outbox/Claiming.antt =====
-- The loop of `claimDispatchable` (storage/src/outbox-file.ts): how many rows it leases, of how many bytes
-- and of which tenants.
use veritio.Prelude.{
  ℕ, suc, ◌+◌, ◌≤◌, ◌≡◌, ◌≢◌, refl, ap, String, some, List, [], ◌∷◌, Bool, true, false, ===_iff,
  leb, find, length, inl, inr, Bool-cases, All, All-map, Pairwise, arith, some-injective, Any, ◌++◌,
}
use veritio.Outbox.{Entry, ClaimOptions, body_bytes}
use veritio.Outbox.File.{holds, is_candidate, lease, ClaimStep, claim_step, claim_rows}
use veritio.Outbox.Calls.{step-cases}

abbrev pub total_bytes : List Entry → ℕ
total_bytes [] = 0
total_bytes (e ∷ es) = body_bytes e.payload + total_bytes es

abbrev pub HasOtherTenant : Entry → Entry → Type 0
HasOtherTenant a b = a.tenant_id ≢ b.tenant_id

module _ (o : ClaimOptions) (now : ℕ) (blocked : String → Bool) where
  -- A row that the pass leased.
  pub record IsLeased (es : List Entry) (e : Entry) : Type 0 where
    pub row : Entry
    pub same : e ≡ lease o now row
    pub candidate : is_candidate o now blocked row ≡ true
    pub listed : Any (λ x. x ≡ row) es

  later-IsLeased :
      (x : Entry) (es cs : List Entry) → All (IsLeased es) cs → All (IsLeased (x ∷ es)) cs
  later-IsLeased x es cs h =
      All-map (IsLeased es) (IsLeased (x ∷ es))
        (λ e l. record {
          row = l.row;
          same = l.same;
          candidate = l.candidate;
          listed = inr l.listed;
        })
        cs h

  pub claim_rows-IsLeased :
      (claimed : List String) (count bytes : ℕ) (es : List Entry)
      → All (IsLeased es) (claim_rows o now blocked claimed count bytes es).1
  unfolding claim_rows
  claim_rows-IsLeased claimed count bytes [] = tt
  claim_rows-IsLeased claimed count bytes (e ∷ es) =
      elim (step-cases o now blocked claimed count bytes e) [
        | inl skipped ↦
            rw (skipped, All) (later-IsLeased e es _ (claim_rows-IsLeased claimed count bytes es))
        | inr (inl stopped) ↦ rw (stopped, All) tt
        | inr (inr taken) ↦
            rw (taken.0, All)
              (
                record { row = e; same = refl; candidate = taken.1.candidate; listed = inl refl },
                later-IsLeased e es _ (
                    claim_rows-IsLeased (e.tenant_id ∷ claimed) (suc count)
                      (bytes + body_bytes e.payload) es),
              )
      ]

  pub claim_rows-length :
      (claimed : List String) (count bytes : ℕ) (es : List Entry)
      → count ≤ o.limit
      → count + length (claim_rows o now blocked claimed count bytes es).1 ≤ o.limit
  unfolding claim_rows
  claim_rows-length claimed count bytes [] within = omega arith
  claim_rows-length claimed count bytes (e ∷ es) within =
      elim (step-cases o now blocked claimed count bytes e) [
        | inl skipped ↦ rw (skipped, length) (claim_rows-length claimed count bytes es within)
        | inr (inl stopped) ↦ rw (stopped, length) (omega arith)
        | inr (inr taken) ↦
            let room : suc count ≤ o.limit = let k = taken.1.within in ground arith in
            let rest =
              claim_rows-length (e.tenant_id ∷ claimed) (suc count) (bytes + body_bytes e.payload)
                es room in
            rw (taken.0, length) (omega arith)
      ]

  pub claim_rows-total_bytes :
      (claimed : List String) (count bytes : ℕ) (es : List Entry)
      → bytes ≤ o.max_payload_bytes
      → bytes + total_bytes (claim_rows o now blocked claimed count bytes es).1
        ≤ o.max_payload_bytes
  unfolding claim_rows lease
  claim_rows-total_bytes claimed count bytes [] within = omega arith
  claim_rows-total_bytes claimed count bytes (e ∷ es) within =
      elim (step-cases o now blocked claimed count bytes e) [
        | inl skipped ↦
            rw (skipped, total_bytes) (claim_rows-total_bytes claimed count bytes es within)
        | inr (inl stopped) ↦ rw (stopped, total_bytes) (omega arith)
        | inr (inr taken) ↦
            let room : bytes + body_bytes e.payload ≤ o.max_payload_bytes =
              let k = taken.1.fits in ground arith in
            let rest =
              claim_rows-total_bytes (e.tenant_id ∷ claimed) (suc count)
                (bytes + body_bytes e.payload) es room in
            rw (taken.0, total_bytes) (omega arith)
      ]

  -- The claims are of tenants that the pass had not claimed for, each of its own.
  pub claim_rows-fresh :
      (claimed : List String) (count bytes : ℕ) (es : List Entry)
      → All
          (λ e. holds claimed e.tenant_id ≡ false)
          (claim_rows o now blocked claimed count bytes es).1
        × Pairwise HasOtherTenant (claim_rows o now blocked claimed count bytes es).1
  unfolding claim_rows lease
  claim_rows-fresh claimed count bytes [] = (tt, tt)
  claim_rows-fresh claimed count bytes (e ∷ es) =
      elim (step-cases o now blocked claimed count bytes e) [
        | inl skipped ↦ rw (skipped, All, Pairwise) (claim_rows-fresh claimed count bytes es)
        | inr (inl stopped) ↦ rw (stopped, All, Pairwise) (tt, tt)
        | inr (inr taken) ↦
            let (later, apart) =
              claim_rows-fresh (e.tenant_id ∷ claimed) (suc count) (bytes + body_bytes e.payload)
                es in
            rw (taken.0, All, Pairwise)
              (
                (
                  taken.1.fresh,
                  All-map _ (λ x. holds claimed x.tenant_id ≡ false) (λ x h. ground arith) _ later,
                ),
                (
                  All-map _ (HasOtherTenant (lease o now e))
                      (λ x h same.
                        let here = (===_iff e.tenant_id x.tenant_id).1 same in ground arith)
                      _ later,
                  apart,
                ),
              )
      ]

  step-takes :
      (e : Entry)
      → is_candidate o now blocked e ≡ true
      → leb 1 o.limit ≡ true
      → leb (body_bytes e.payload) o.max_payload_bytes ≡ true
      → claim_step o now blocked [] 0 0 e ≡ ClaimStep.takes
  unfolding claim_step
  step-takes e candidate limit fits = ground arith

  step-skips :
      (e : Entry)
      → is_candidate o now blocked e ≡ false
      → claim_step o now blocked [] 0 0 e ≡ ClaimStep.skips
  unfolding claim_step
  step-skips e out = ground arith

  pub find-first :
      (front : List Entry) (e : Entry) (back : List Entry)
      → All (λ x. is_candidate o now blocked x ≡ false) front
      → is_candidate o now blocked e ≡ true
      → find (is_candidate o now blocked) (front ++ e ∷ back) ≡ some e
  find-first [] e back none_before here = rw here refl
  find-first (x ∷ front) e back none_before here =
      rw (none_before.0) (find-first front e back none_before.1 here)

  -- The first candidate is claimed where it fits.
  pub claim_rows-first :
      (es : List Entry) (e : Entry)
      → find (is_candidate o now blocked) es ≡ some e
      → leb 1 o.limit ≡ true
      → leb (body_bytes e.payload) o.max_payload_bytes ≡ true
      → (rest : List Entry) × ((claim_rows o now blocked [] 0 0 es).1 ≡ lease o now e ∷ rest)
  unfolding claim_rows
  claim_rows-first [] e found limit fits = cc
  claim_rows-first (x ∷ xs) e found limit fits = elim (Bool-cases (is_candidate o now blocked x)) [
    | inl here ↦
        let same : x ≡ e = some-injective (rw here at found) in
        let taken = step-takes x here limit (rw same fits) in
        let rest =
          (claim_rows o now blocked (x.tenant_id ∷ []) 1 (0 + body_bytes x.payload) xs).1 in
        (rest, rw (taken, claim_rows) (ap (λ r. lease o now r ∷ rest) same))
    | inr gone ↦
        let (rest, first) = claim_rows-first xs e (rw gone at found) limit fits in
        (rest, rw (step-skips x gone, claim_rows) first)
  ]
