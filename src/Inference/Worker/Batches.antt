-- ===== src/Inference/Worker/Batches.antt =====
-- The two dictionaries of the worker's loop: a row of features and its record stand at one index.
use sih.Floats.{Floats}
use sih.Inference.Worker.{polled, no_record, no_object}
use sih.Prelude.{
  of_branches, arith, map, ◌∷◌, [], List, some, none, Option, false, refl, ◌≡◌, String, ◌≤◌, ℕ,
  length-append, length,
}
use sih.Inference.Worker.{
  Polled, receive, receive_all, add_features, Worker, collect, Pending, flush_full, no_batches,
  any_full, Batched, Setting, append_at,
}
use sih.Inference.Models.{extract_features_for_model, Session, RawRecord}

-- The same models in the same order, with as many rows as records.
abbrev pub IsPaired : {A B : Type 0} → Batched A → Batched B → Type 0
IsPaired [] [] = Unit
IsPaired [] ((name, metas) ∷ meta) = ⊥
IsPaired ((key, rows) ∷ features) [] = ⊥
IsPaired ((key, rows) ∷ features) ((name, metas) ∷ meta) =
    (key ≡ name) × (length rows ≡ length metas) × IsPaired features meta

IsPaired-no_batches :
    (A B : Type 0) (names : List String)
    → IsPaired (no_batches {A = A} names) (no_batches {A = B} names)
IsPaired-no_batches A B [] = tt
IsPaired-no_batches A B (name ∷ names) = (refl, refl, IsPaired-no_batches A B names)

any_full-no_batches :
    (A : Type 0) (size : ℕ) (names : List String)
    → 1 ≤ size
    → any_full size (no_batches {A = A} names) ≡ false
unfolding any_full
any_full-no_batches A size [] h = refl
any_full-no_batches A size (name ∷ names) h = ground (arith, any_full-no_batches A size names h)

module _ {A B : Type 0} where
  IsPaired-append_at :
      (name : String) (a : A) (b : B) (features : Batched A) (meta : Batched B)
      → IsPaired features meta
      → IsPaired (append_at name a features) (append_at name b meta)
  unfolding append_at
  IsPaired-append_at name a b [] [] h = tt
  IsPaired-append_at name a b [] (_ ∷ meta) h = elim h [ ]
  IsPaired-append_at name a b ((key, rows) ∷ features) [] h = elim h [ ]
  IsPaired-append_at name a b ((key, rows) ∷ features) ((other, metas) ∷ meta) h = ground (
    arith,
    IsPaired-append_at name a b features meta h.2,
    length-append rows (a ∷ []),
    length-append metas (b ∷ []),
  )

module _ (fl : Floats) (env : Setting fl) where
  open fl use {F, lt, lit}

  abbrev pub IsBatching : Pending F → Type 0
  IsBatching p = IsPaired p.features p.meta

  IsBatching-add_features :
      (name : String) (feats : Option (List F)) (r : RawRecord F) (p : Pending F)
      → IsBatching p
      → IsBatching (add_features fl name feats r p)
  unfolding add_features
  IsBatching-add_features name none r p h = h
  IsBatching-add_features name (some []) r p h = h
  IsBatching-add_features name (some (a ∷ feats)) r p h =
      IsPaired-append_at name (a ∷ feats) r p.features p.meta h

  IsBatching-collect :
      (sessions : List (String × Session fl)) (r : RawRecord F) (p : Pending F)
      → IsBatching p
      → IsBatching (collect fl sessions r p)
  unfolding collect
  IsBatching-collect [] r p h = h
  IsBatching-collect ((name, session) ∷ sessions) r p h =
      let feats = extract_features_for_model fl name r in
      IsBatching-collect sessions r (add_features fl name feats r p)
        (IsBatching-add_features name feats r p h)

  abbrev names : List String
  names = map (λ (s : String × Session fl). s.0) env.sessions

  flush_full-IsBatching :
      (p : Pending F) (w : Worker fl)
      → 1 ≤ env.batch_size
      → IsBatching p
      → IsBatching (flush_full fl env (p, w)).0
        × (any_full env.batch_size (flush_full fl env (p, w)).0.features ≡ false)
  unfolding flush_full
  flush_full-IsBatching p w size h =
      of_branches
        (λ (s : Pending F × Worker fl).
          IsBatching s.0 × (any_full env.batch_size s.0.features ≡ false))
        (any_full env.batch_size p.features) _ _
        (λ full. (IsPaired-no_batches _ _ names, any_full-no_batches _ env.batch_size names size))
        (λ small. (h, small))

  receive-IsBatching :
      (m : Polled F) (p : Pending F) (w : Worker fl)
      → 1 ≤ env.batch_size
      → IsBatching p × (any_full env.batch_size p.features ≡ false)
      → IsBatching (receive fl env m (p, w)).0
        × (any_full env.batch_size (receive fl env m (p, w)).0.features ≡ false)
  unfolding receive
  receive-IsBatching no_record p w size h = h
  receive-IsBatching no_object p w size h = flush_full-IsBatching p w size h.0
  receive-IsBatching (polled r) p w size h =
      flush_full-IsBatching (collect fl env.sessions r p) w size
        (IsBatching-collect env.sessions r p h.0)

  -- With a batch size of at least one, and after any messages from any pending batches that are
  -- paired and not full: the features and the records of every model are as many, for the same
  -- models in the same order, so the index of a row is one of a record; and no batch is full.
  pub receive_all-IsBatching :
      (messages : List (Polled F)) (p : Pending F) (w : Worker fl)
      → 1 ≤ env.batch_size
      → IsBatching p × (any_full env.batch_size p.features ≡ false)
      → IsBatching (receive_all fl env messages (p, w)).0
        × (any_full env.batch_size (receive_all fl env messages (p, w)).0.features ≡ false)
  unfolding receive_all
  receive_all-IsBatching [] p w size h = h
  receive_all-IsBatching (m ∷ messages) p w size h =
      let s = receive fl env m (p, w) in
      receive_all-IsBatching messages s.0 s.1 size (receive-IsBatching m p w size h)
