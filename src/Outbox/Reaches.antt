-- ===== src/Outbox/Reaches.antt =====
-- The files of the queue of storage/src/outbox-file.ts that a history of calls leads to.
use veritio.Prelude.{ℕ, ◌≡◌, refl, String, Option, List, [], ◌∷◌, ◌++◌, Bool, All, All-append}
use veritio.Prelude.Results.{ok}
use veritio.Outbox.{Entry}
use veritio.Outbox.Calls.{Call, call, run, after_call}
use veritio.Outbox.Evidence.{HasUuid}
use veritio.Outbox.Survival.{HasOwnLease}

module _ (id_le : String → String → Bool) where
  -- A history of calls, with leases and well-formed circuit ids, that leads from one file to another,
  -- whatever the byte ceiling.
  pub record Reaches (file after : List Entry) : Type 0 where
    pub calls : List Call
    pub leads : (max : Option ℕ) → after ≡ run id_le max file calls
    pub owned : All HasOwnLease calls
    pub named : All HasUuid calls

  pub Reaches-refl : (file : List Entry) → Reaches file file
  unfolding run
  Reaches-refl file = record { calls = []; leads = λ max. refl; owned = tt; named = tt }

  run-append :
      (max : Option ℕ) (file : List Entry) (cs ds : List Call)
      → run id_le max file (cs ++ ds) ≡ run id_le max (run id_le max file cs) ds
  unfolding run
  run-append max file [] ds = refl
  run-append max file (c ∷ cs) ds =
      run-append max (after_call id_le max file (call id_le max file c)) cs ds

  pub Reaches-trans :
      (file middle after : List Entry)
      → Reaches file middle
      → Reaches middle after
      → Reaches file after
  Reaches-trans file middle after a b = record {
    calls = a.calls ++ b.calls;
    leads = λ max. rw (run-append max file a.calls b.calls, ← a.leads max) (b.leads max);
    owned = All-append HasOwnLease a.calls b.calls a.owned b.owned;
    named = All-append HasUuid a.calls b.calls a.named b.named;
  }

  pub Reaches-call :
      (file : List Entry) (c : Call) (after : List Entry)
      → HasOwnLease c
      → HasUuid c
      → ((max : Option ℕ) → call id_le max file c ≡ ok after)
      → Reaches file after
  unfolding run
  Reaches-call file c after own fresh h = record {
    calls = c ∷ [];
    leads = λ max. rw (h max) refl;
    owned = (own, tt);
    named = (fresh, tt);
  }
