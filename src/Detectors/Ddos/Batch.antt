-- ===== src/Detectors/Ddos/Batch.antt =====
-- `predict_batch` of the DDoS detector against `predict`, for models that score each row by itself.
use sih.Floats.{Floats}
use sih.Detectors.Ddos.{
  queue_one, Queued, ddos_predict, ddos_predict_batch, triage, queue, fill, predict_queued,
  predict_ml, classified, labelled, model_row,
}
use sih.Detectors.{Model, classifier, outlier_model, Features, Prediction, Row, row_score, Label}
use sih.Prelude.{
  fun_ext, ap₂, sym, ◌∙◌, ap, ◌+◌, length-append, set, get_elem?, append_assoc, set-middle,
  get_elem?-middle, arith, map, ◌++◌, ◌∷◌, [], List, some, none, Option, inr, inl, refl, ◌≡◌, ℕ,
  zip, length, Option-cases,
}

abbrev empty_list : (A : Type 0) → List A
empty_list A = []

module _ (fl : Floats) where
  open fl use {F, lt, lit, single}

  -- The answer for a row does not depend on the other rows of `X`.
  abbrev pub IsRowwise : Model F → Type 0
  IsRowwise (classifier proba) =
      (row : List F → Row F) × ((rows : List (List F)) → proba rows ≡ map row rows)
  IsRowwise (outlier_model labels) =
      (row : List F → Label) × ((rows : List (List F)) → labels rows ≡ map row rows)

  -- `triage` decides as `predict` does, and leaves to the model what `predict` leaves to it.
  triage-some :
      (model : Option (Model F)) (v : Features F) {p : Prediction F}
      → triage fl model v ≡ some p
      → ddos_predict fl model v ≡ some p
  unfolding triage ddos_predict
  triage-some none v h = ground arith
  triage-some (some m) v h = ground arith

  triage-none :
      (m : Model F) (v : Features F)
      → triage fl (some m) v ≡ none
      → ddos_predict fl (some m) v ≡ predict_ml fl (some m) v
  unfolding triage ddos_predict predict_ml
  triage-none m v h = ground arith

  triage_no_model : (v : Features F) → triage fl none v ≡ none → ⊥
  unfolding triage
  triage_no_model v h = ground arith

  -- What `fill` puts in the place of a vector.
  abbrev finish :
      {A : Type 0}
      → (Features F → A → Prediction F)
      → (List F → A)
      → Features F
      → Option (Prediction F)
      → Option (Prediction F)
  finish make answer v (some p) = some p
  finish make answer v none = some (make v (answer (model_row fl v)))

  fill_cons :
      {A : Type 0} (make : Features F → A → Prediction F) (vectors : List (Features F)) (i : ℕ)
      {v : Features F} (a : A) (rest : List (ℕ × A)) (results : List (Option (Prediction F)))
      → get_elem? vectors i ≡ some v
      → fill fl make vectors ((i, a) ∷ rest) results
        ≡ fill fl make vectors rest (set results i (some (make v a)))
  unfolding fill
  fill_cons make vectors i a rest results h = rw (h, fill)

  module _ {A : Type 0} (make : Features F → A → Prediction F) (answer : List F → A)
      (m : Model F) where
    fill_step :
        (o : Option (Prediction F)) (before : List (Features F)) (v : Features F)
        (vs : List (Features F)) (done target : List (Option (Prediction F))) (q : Queued fl)
        → length done ≡ length before
        → ((x : Option (Prediction F))
            → fill fl make
                ((before ++ v ∷ []) ++ vs)
                (zip q.indices (map answer q.rows))
                ((done ++ x ∷ []) ++ q.results)
              ≡ some ((done ++ x ∷ []) ++ target))
        → fill fl make
            (before ++ v ∷ vs)
            (zip
              (queue_one fl (length before) v o q).indices
              (map answer (queue_one fl (length before) v o q).rows))
            (done ++ (queue_one fl (length before) v o q).results)
          ≡ some (done ++ finish make answer v o ∷ target)
    fill_step (some p) before v vs done target q hd ih = simp append_assoc at (ih (some p))
    fill_step none before v vs done target q hd ih =
        let filled = some (make v (answer (model_row fl v))) in
        fill_cons make (before ++ v ∷ vs) (length before) _ _ _ (get_elem?-middle before vs v)
        ∙ ap (fill fl make (before ++ v ∷ vs) (zip q.indices (map answer q.rows)))
            (rw (← hd) (set-middle done q.results none filled))
        ∙ simp append_assoc at (ih filled)

    fill-queue :
        (before vs : List (Features F)) (done : List (Option (Prediction F)))
        → length done ≡ length before
        → fill fl make
            (before ++ vs)
            (zip
              (queue fl (some m) (length before) vs).indices
              (map answer (queue fl (some m) (length before) vs).rows))
            (done ++ (queue fl (some m) (length before) vs).results)
          ≡ some (done ++ map (λ v. finish make answer v (triage fl (some m) v)) vs)
    unfolding queue
    fill-queue before [] done hd = unfold fill in refl
    fill-queue before (v ∷ vs) done hd =
        fill_step (triage fl (some m) v) before v vs done _ _ hd λ x.
          let further : length before + 1 ≡ length (before ++ v ∷ []) =
            omega (arith, length-append before (v ∷ [])) in
          rw further (
            fill-queue (before ++ v ∷ []) vs (done ++ x ∷ [])
              (omega (arith, length-append done (x ∷ []), hd, further)))

  zip_nil : {A : Type 0} (is : List ℕ) → zip is (empty_list A) ≡ []
  zip_nil [] = refl
  zip_nil (i ∷ is) = refl

  -- With no rows there is nothing to fill in.
  queued_classifier :
      (proba : List (List F) → List (Row F)) (row : List F → Row F) (vs : List (Features F))
      (indices : List ℕ) (rows : List (List F)) (results : List (Option (Prediction F)))
      → ((x : List (List F)) → proba x ≡ map row x)
      → predict_queued fl
          (some (classifier proba))
          vs
          (record { results = results; indices = indices; rows = rows })
        ≡ fill fl (λ v r. classified fl v (row_score r)) vs (zip indices (map row rows)) results
  unfolding predict_queued
  queued_classifier proba row vs indices [] results h = rw zip_nil
  queued_classifier proba row vs indices (x ∷ xs) results h = rw (h (x ∷ xs))

  queued_outlier :
      (labels : List (List F) → List Label) (row : List F → Label) (vs : List (Features F))
      (indices : List ℕ) (rows : List (List F)) (results : List (Option (Prediction F)))
      → ((x : List (List F)) → labels x ≡ map row x)
      → predict_queued fl
          (some (outlier_model labels))
          vs
          (record { results = results; indices = indices; rows = rows })
        ≡ fill fl (labelled fl) vs (zip indices (map row rows)) results
  unfolding predict_queued
  queued_outlier labels row vs indices [] results h = rw zip_nil
  queued_outlier labels row vs indices (x ∷ xs) results h = rw (h (x ∷ xs))

  finish_predict :
      {A : Type 0} (make : Features F → A → Prediction F) (row : List F → A) (m : Model F)
      (v : Features F)
      → predict_ml fl (some m) v ≡ some (make v (row (model_row fl v)))
      → finish make row v (triage fl (some m) v) ≡ ddos_predict fl (some m) v
  finish_predict make row m v ml = elim (Option-cases (triage fl (some m) v)) [
    | inr (p, decided) ↦ rw decided (sym (triage-some (some m) v decided))
    | inl waits ↦ rw waits (sym (triage-none m v waits ∙ ml))
  ]

  predict_ml_classifier :
      (proba : List (List F) → List (Row F)) (row : List F → Row F) (v : Features F)
      → ((x : List (List F)) → proba x ≡ map row x)
      → predict_ml fl (some (classifier proba)) v
        ≡ some (classified fl v (row_score (row (model_row fl v))))
  unfolding predict_ml
  predict_ml_classifier proba row v h = rw (h, predict_ml)

  predict_ml_outlier :
      (labels : List (List F) → List Label) (row : List F → Label) (v : Features F)
      → ((x : List (List F)) → labels x ≡ map row x)
      → predict_ml fl (some (outlier_model labels)) v ≡ some (labelled fl v (row (model_row fl v)))
  unfolding predict_ml
  predict_ml_outlier labels row v h = rw (h, predict_ml)

  -- With a model that scores each row by itself, `predict_batch` raises no exception and gives, for
  -- each vector in its place, what `predict` gives for that vector alone, whether the model is a
  -- classifier or an outlier detector.
  pub ddos_predict_batch-map :
      (m : Model F) (vs : List (Features F))
      → IsRowwise m
      → ddos_predict_batch fl (some m) vs ≡ some (map (ddos_predict fl (some m)) vs)
  unfolding ddos_predict_batch
  ddos_predict_batch-map (classifier proba) vs (row, h) =
      queued_classifier proba row vs _ _ _ h
      ∙ fill-queue (λ v r. classified fl v (row_score r)) row (classifier proba) [] vs [] refl
      ∙ ap (λ (f : Features F → Option (Prediction F)). some (map f vs))
          (fun_ext (λ v.
            finish_predict (λ v r. classified fl v (row_score r)) row (classifier proba) v
              (predict_ml_classifier proba row v h)))
  ddos_predict_batch-map (outlier_model labels) vs (row, h) =
      queued_outlier labels row vs _ _ _ h
      ∙ fill-queue (labelled fl) row (outlier_model labels) [] vs [] refl
      ∙ ap (λ (f : Features F → Option (Prediction F)). some (map f vs))
          (fun_ext (λ v.
            finish_predict (labelled fl) row (outlier_model labels) v
              (predict_ml_outlier labels row v h)))

  queue_no_model :
      (i : ℕ) (vs : List (Features F))
      → (queue fl none i vs).results ≡ map (ddos_predict fl none) vs
  unfolding queue
  queue_no_model i [] = refl
  queue_no_model i (v ∷ vs) = elim (Option-cases (triage fl none v)) [
    | inl waits ↦ absurd (triage_no_model v waits)
    | inr (p, decided) ↦
        rw decided (ap₂ ◌∷◌ (sym (triage-some none v decided)) (queue_no_model (i + 1) vs))
  ]

  -- Without a model `predict_batch` raises no exception and gives, for each vector in its place, what
  -- `predict` gives for that vector.
  ddos_predict_batch_no_model :
      (vs : List (Features F))
      → ddos_predict_batch fl none vs ≡ some (map (ddos_predict fl none) vs)
  unfolding ddos_predict_batch predict_queued
  ddos_predict_batch_no_model vs = ap some (queue_no_model 0 vs)
