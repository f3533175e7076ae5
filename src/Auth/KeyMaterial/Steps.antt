-- ===== src/Auth/KeyMaterial/Steps.antt =====
-- app/auth/key_material.py: the steps of calls of `unlock`, and what they keep.
use restream_plus.Auth.KeyMaterial.{
  locked, unlocking, ready, Bytes, KeyMaterial, is_ready, is_empty, Outcome, suspends, returns,
  enter, unlock, resume, derive_sync, finish, acquire,
}
use restream_plus.Base.{
  String, ◌++◌, List, [], ◌∷◌, Bool, true, false, none, some, ◌≡◌, refl, ◌⊎◌, inl, inr, arith, All,
  Bool-cases, ◌∙◌, Option,
}

-- A task calls `unlock`, the first task that waits gets the lock, or the thread ends.
pub data Op : Type 0 where
  unlocks : Bytes → Op
  resumes : Op
  finishes : Bool → Op

abbrev pub IsPassphrase : Bytes → Type 0
IsPassphrase p = is_empty p ≡ false

All-snoc :
    (ps : List Bytes) (p : Bytes)
    → All IsPassphrase ps
    → IsPassphrase p
    → All IsPassphrase (ps ++ p ∷ [])
All-snoc [] p h hp = (hp, tt)
All-snoc (q ∷ qs) p (hq, h) hp = (hq, All-snoc qs p h hp)

module _ (derive_root_key : Bytes → Bytes → Bytes) (derive_subkey : Bytes → String → Bytes)
    (salt : Bytes) where
  unfoldable pub step : Op → KeyMaterial → Outcome × KeyMaterial
  step (unlocks p) k = unlock p k
  step resumes k = resume k k.holder k.waiting
  step (finishes derives) k = finish derive_root_key derive_subkey derives k k.holder

  unfoldable pub run : KeyMaterial → List Op → KeyMaterial
  run k [] = k
  run k (op ∷ ops) = run (step op k).1 ops

  -- Locked without keys, a derivation under way with the lock held, or ready with the keys of a
  -- passphrase.
  abbrev pub Phase : KeyMaterial → Type 0
  Phase k =
      ((k.state ≡ locked) × (k.keys ≡ none) × (k.holder ≡ none))
      ⊎ ((k.state ≡ unlocking)
          × (k.keys ≡ none)
          × ((p : Bytes) × IsPassphrase p × (k.holder ≡ some p)))
      ⊎ ((k.state ≡ ready)
          × (k.holder ≡ none)
          × ((p : Bytes) × IsPassphrase p
              × (k.keys ≡ some (derive_sync derive_root_key derive_subkey salt p))))

  pub record IsConsistent (k : KeyMaterial) : Type 0 where
    pub same_salt : k.kdf_salt ≡ salt
    pub phase : Phase k
    pub queued : All IsPassphrase k.waiting

  -- What a step from `k` with `o` and `k'` may do: a call that returns leaves the keys ready, and keys
  -- that are ready stay.
  pub record IsStep (k : KeyMaterial) (o : Outcome) (k' : KeyMaterial) : Type 0 where
    pub consistent : IsConsistent k'
    pub returned : o ≡ returns → is_ready k' ≡ true
    pub kept : is_ready k ≡ true → (is_ready k' ≡ true) × (k'.keys ≡ k.keys)

  stays : (k : KeyMaterial) → IsConsistent k → IsStep k suspends k
  stays k h = record { consistent = h; returned = λ q. ground arith; kept = λ q. (q, refl) }

  queue_up :
      (k : KeyMaterial) (p : Bytes)
      → IsPassphrase p
      → IsConsistent k
      → IsStep k suspends (record k { waiting = k.waiting ++ p ∷ [] })
  queue_up k p hp h = record {
    consistent = record {
      same_salt = h.same_salt;
      phase = h.phase;
      queued = All-snoc k.waiting p h.queued hp;
    };
    returned = λ q. ground arith;
    kept = λ q. (q, refl);
  }

  enter-IsStep :
      (k : KeyMaterial) (p : Bytes)
      → IsPassphrase p
      → k.holder ≡ none
      → IsConsistent k
      → IsStep k (enter p k).0 (enter p k).1
  unfolding enter
  enter-IsStep k p hp free h = elim (Bool-cases (is_ready k)) [
    | inl r ↦ rw r (record { consistent = h; returned = λ q. r; kept = λ q. (q, refl) })
    | inr n ↦ rw n (record {
      consistent = record {
        same_salt = h.same_salt;
        phase = inr (inl (refl, ground arith, (p, hp, refl)));
        queued = h.queued;
      };
      returned = λ q. ground arith;
      kept = λ q. ground arith;
    })
  ]

  acquire-IsStep :
      (k : KeyMaterial) (p : Bytes) (holder : Option Bytes) (waiting : List Bytes)
      → IsPassphrase p
      → k.holder ≡ holder
      → IsConsistent k
      → IsStep k (acquire p k holder waiting).0 (acquire p k holder waiting).1
  unfolding acquire
  acquire-IsStep k p none [] hp free h = enter-IsStep k p hp free h
  acquire-IsStep k p none (w ∷ ws) hp free h = queue_up k p hp h
  acquire-IsStep k p (some d) ws hp held h = queue_up k p hp h

  unlock-IsStep :
      (k : KeyMaterial) (p : Bytes) → IsConsistent k → IsStep k (unlock p k).0 (unlock p k).1
  unfolding unlock
  unlock-IsStep k p h = elim (Bool-cases (is_empty p)) [
    | inl blank ↦
        rw blank (record { consistent = h; returned = λ q. ground arith; kept = λ q. (q, refl) })
    | inr hp ↦ elim (Bool-cases (is_ready k)) [
      | inl r ↦ rw (hp, r) (record { consistent = h; returned = λ q. r; kept = λ q. (q, refl) })
      | inr n ↦ rw (hp, n) (acquire-IsStep k p k.holder k.waiting hp refl h)
    ]
  ]

  resume-IsStep :
      (k : KeyMaterial) (holder : Option Bytes) (waiting : List Bytes)
      → k.holder ≡ holder
      → All IsPassphrase waiting
      → IsConsistent k
      → IsStep k (resume k holder waiting).0 (resume k holder waiting).1
  unfolding resume
  resume-IsStep k none [] free queued h = stays k h
  resume-IsStep k none (w ∷ ws) free (hw, queued) h =
      let s =
        enter-IsStep (record k { waiting = ws }) w hw free
          (record { same_salt = h.same_salt; phase = h.phase; queued = queued }) in
      record { consistent = s.consistent; returned = s.returned; kept = s.kept }
  resume-IsStep k (some d) waiting held queued h = stays k h

  holder-IsPassphrase :
      (k : KeyMaterial) (p : Bytes)
      → k.holder ≡ some p
      → Phase k
      → IsPassphrase p × (is_ready k ≡ false) × (k.keys ≡ none)
  holder-IsPassphrase k p held (inl (s, n, free)) = ground arith
  holder-IsPassphrase k p held (inr (inl (s, n, (q, hq, e)))) = ground arith
  holder-IsPassphrase k p held (inr (inr (s, free, rest))) = ground arith

  finish-IsStep :
      (derives : Bool) (k : KeyMaterial) (holder : Option Bytes)
      → k.holder ≡ holder
      → IsConsistent k
      → IsStep k
          (finish derive_root_key derive_subkey derives k holder).0
          (finish derive_root_key derive_subkey derives k holder).1
  unfolding finish
  finish-IsStep derives k none free h = stays k h
  finish-IsStep true k (some p) held h =
      let (hp, busy, bare) = holder-IsPassphrase k p held h.phase in
      record {
        consistent = record {
          same_salt = h.same_salt;
          phase = inr (inr (refl, refl, (p, hp, rw (h.same_salt) refl)));
          queued = h.queued;
        };
        returned = λ q. refl;
        kept = λ q. ground arith;
      }
  finish-IsStep false k (some p) held h =
      let (hp, busy, bare) = holder-IsPassphrase k p held h.phase in
      record {
        consistent = record {
          same_salt = h.same_salt;
          phase = inl (refl, bare, refl);
          queued = h.queued;
        };
        returned = λ q. ground arith;
        kept = λ q. ground arith;
      }

  pub step-IsStep :
      (op : Op) (k : KeyMaterial) → IsConsistent k → IsStep k (step op k).0 (step op k).1
  unfolding step
  step-IsStep (unlocks p) k h = unlock-IsStep k p h
  step-IsStep resumes k h = resume-IsStep k k.holder k.waiting refl h.queued h
  step-IsStep (finishes derives) k h = finish-IsStep derives k k.holder refl h

  pub run-IsConsistent :
      (k : KeyMaterial) (ops : List Op) → IsConsistent k → IsConsistent (run k ops)
  unfolding run
  run-IsConsistent k [] h = h
  run-IsConsistent k (op ∷ ops) h =
      run-IsConsistent (step op k).1 ops (step-IsStep op k h).consistent

  pub run_keeps :
      (k : KeyMaterial) (ops : List Op)
      → IsConsistent k
      → is_ready k ≡ true
      → (is_ready (run k ops) ≡ true) × ((run k ops).keys ≡ k.keys)
  unfolding run
  run_keeps k [] h r = (r, refl)
  run_keeps k (op ∷ ops) h r =
      let s = step-IsStep op k h in
      let (r', q) = s.kept r in
      let (r'', q') = run_keeps (step op k).1 ops s.consistent r' in (r'', q' ∙ q)
