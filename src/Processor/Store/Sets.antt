-- ===== src/Processor/Store/Sets.antt =====
-- What a commit's loop over its outputs adds to the dispatchable sets.
use peas_engine.Prelude.{
  ◌≡◌, refl, String, Bool-cases, inl, inr, List, [], ◌∷◌, All, All-append_last,
}
use peas_engine.Processor.{
  OutputBody, decision, job, outbox_message, ImmutableOutput, job_category, outbox_category,
  category_of,
}
use peas_engine.Processor.Validate.{has}
use peas_engine.Processor.Store.{add_jobs, add_outbox, add, add_job, add_message}

pub All-mono :
    (P Q : String → Type 0) (ids : List String)
    → ((id : String) → P id → Q id)
    → All P ids
    → All Q ids
All-mono P Q [] f a = tt
All-mono P Q (id ∷ ids) f a = (f id a.0, All-mono P Q ids f a.1)

pub All-cast : (P : String → Type 0) (ids ids' : List String) → ids' ≡ ids → All P ids → All P ids'
All-cast P ids ids' same a = rw same a

-- What a commit's loop adds to a set are IDs of its outputs of the category.
module _ (P : String → Type 0) where
  add-All : (id : String) (ids : List String) → P id → All P ids → All P (add id ids)
  add-All id ids h a = elim (Bool-cases (has id ids)) [
    | inl known ↦ rw known a
    | inr new ↦ rw new (All-append_last P ids id a h)
  ]

  pub add_jobs-All :
      (os : List ImmutableOutput) (ids : List String)
      → All (λ o. category_of o.body ≡ job_category → P o.output_id) os
      → All P ids
      → All P (add_jobs os ids)
  unfolding add_jobs
  add_jobs-All [] ids new a = a
  add_jobs-All (o ∷ os) ids new a = add_jobs-All os _ new.1 (added o.body new.0)
    where
      added :
          (b : OutputBody)
          → (category_of b ≡ job_category → P o.output_id)
          → All P (add_job b o.output_id ids)
      added (decision d) h = a
      added (job j) h = add-All o.output_id ids (h refl) a
      added (outbox_message m) h = a

  pub add_outbox-All :
      (os : List ImmutableOutput) (ids : List String)
      → All (λ o. category_of o.body ≡ outbox_category → P o.output_id) os
      → All P ids
      → All P (add_outbox os ids)
  unfolding add_outbox
  add_outbox-All [] ids new a = a
  add_outbox-All (o ∷ os) ids new a = add_outbox-All os _ new.1 (added o.body new.0)
    where
      added :
          (b : OutputBody)
          → (category_of b ≡ outbox_category → P o.output_id)
          → All P (add_message b o.output_id ids)
      added (decision d) h = a
      added (job j) h = a
      added (outbox_message m) h = add-All o.output_id ids (h refl) a
