-- ===== src/Outbox/Queue.antt =====
-- The invariant of the file queue (storage/src/outbox-file.ts): every row is valid, and no two rows have
-- one id.
use veritio.Prelude.{
  ℕ, ◌≡◌, ◌≢◌, sym, String, Option, List, [], ◌∷◌, Bool, inl, inr, All, Each-All, Each-Pairwise,
  Pairwise, ◌∙◌,
}
use veritio.Prelude.Results.{ok, Result-cases}
use veritio.Outbox.{Entry}
use veritio.Outbox.File.{sort_entries, read_entries}
use veritio.Outbox.Rows.{IsStored, All-sort, Pairwise-sort, read-IsStored}
use veritio.Outbox.Steps.{RowStep, step-IsStored, step-IsSameEvidence}
use veritio.Outbox.Calls.{Call, call, run}
use veritio.Outbox.Evidence.{Updates, HasUuid, call-Updates}
use veritio.Outbox.Enqueue.{transaction-IsStored, transaction-Pairwise}

abbrev pub HasOtherId : Entry → Entry → Type 0
HasOtherId a b = a.id ≢ b.id

pub HasOtherId-flip : (a b : Entry) → HasOtherId a b → HasOtherId b a
HasOtherId-flip a b h same = h (sym same)

pub record IsQueue (file : List Entry) : Type 0 where
  pub stored : All IsStored file
  pub apart : Pairwise HasOtherId file

-- The calls of a history take their circuit ids from valid UUIDs.
abbrev pub AllUuids : List Call → Type 0
AllUuids cs = All HasUuid cs

step-HasOtherId : (a b x y : Entry) → RowStep a x → RowStep b y → HasOtherId a b → HasOtherId x y
step-HasOtherId a b x y f g h same =
    h (sym (step-IsSameEvidence a x f).id ∙ same ∙ (step-IsSameEvidence b y g).id)

module _ (id_le : String → String → Bool) where
  Updates-IsQueue :
      (file after : List Entry) → IsQueue file → Updates id_le RowStep file after → IsQueue after
  Updates-IsQueue file after v u =
      let stored =
        Each-All RowStep IsStored IsStored (λ e x s. step-IsStored e x s) (sort_entries id_le file)
          u.rows u.each (All-sort id_le IsStored file v.stored) in
      let apart =
        Each-Pairwise RowStep HasOtherId HasOtherId step-HasOtherId (sort_entries id_le file) u.rows
          u.each (Pairwise-sort id_le HasOtherId HasOtherId-flip file v.apart) in
      elim u.moved [
        | inl same ↦ rw same v
        | inr moved ↦ rw moved (record {
          stored = All-sort id_le IsStored u.rows stored;
          apart = Pairwise-sort id_le HasOtherId HasOtherId-flip u.rows apart;
        })
      ]

  pub call-IsQueue :
      (max : Option ℕ) (file : List Entry) (c : Call) (after : List Entry)
      → HasUuid c
      → IsQueue file
      → call id_le max file c ≡ ok after
      → IsQueue after
  unfolding call
  call-IsQueue max file c after fresh v h = elim (call-Updates id_le max file c after fresh h) [
    | inl (callback, same) ↦
        let h' = rw (same, call) at h in
        record {
          stored = transaction-IsStored id_le max file callback after v.stored h';
          apart =
              transaction-Pairwise id_le max HasOtherId HasOtherId-flip
                (λ e x pending other same. other (sym same)) file callback after v.apart h';
        }
    | inr u ↦ Updates-IsQueue file after v u
  ]

  pub run-IsQueue :
      (max : Option ℕ) (file : List Entry) (cs : List Call)
      → AllUuids cs
      → IsQueue file
      → IsQueue (run id_le max file cs)
  unfolding run
  run-IsQueue max file [] fresh v = v
  run-IsQueue max file (c ∷ cs) fresh v = elim (Result-cases (call id_le max file c)) [
    | inl (after, done) ↦
        rw (done, run)
          (run-IsQueue max after cs fresh.1 (call-IsQueue max file c after fresh.0 v done))
    | inr (e, refused) ↦ rw (refused, run) (run-IsQueue max file cs fresh.1 v)
  ]

  -- After any history of calls on a queue that starts empty, whether they return or throw, where the
  -- circuit ids that pauses make of random UUIDs are well formed: the file can be read, its rows are all
  -- valid, and no two of them have one id.
  pub history_reads :
      (max : Option ℕ) (cs : List Call)
      → AllUuids cs
      → let file = run id_le max [] cs in
        (read_entries id_le file ≡ ok (sort_entries id_le file)) × IsQueue file
  history_reads max cs fresh =
      let v = run-IsQueue max [] cs fresh (record { stored = tt; apart = tt }) in
      (read-IsStored id_le (run id_le max [] cs) v.stored, v)
