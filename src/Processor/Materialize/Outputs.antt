-- ===== src/Processor/Materialize/Outputs.antt =====
-- What `#materialize` makes of a transition.
use peas_engine.Prelude.{
  ℕ, zero, suc, ◌≡◌, refl, ap, ◌∙◌, String, List, [], ◌∷◌, ◌++◌, map, map-append, length,
  length-map, All, All-append, ok, >>=-eq-ok, ok_injective,
}
use peas_engine.Json.{canonical_json}
use peas_engine.Digest.{Platform}
use peas_engine.Events.{StoredEvent}
use peas_engine.Processor.{
  RunRegistration, Transition, OutputBody, decision, job, outbox_message, category_of,
  ImmutableOutput,
}
use peas_engine.Processor.Schemas.{persisted_limits}
use peas_engine.Processor.Hashes.{body_json, compute_body_hash, compute_output_id}
use peas_engine.Processor.Validate.{within}
use peas_engine.Processor.Materialize.{
  dedupe_key_of, not_before_of, output_body, add_dedupe, materialize_one, materialize_group,
  materialize,
}

-- An output of an event of a run, for an aggregate, with the keys of its body and the IDs of its content.
pub record IsOutputOf (p : Platform) (r : RunRegistration) (event : StoredEvent)
    (aggregate : String) (o : ImmutableOutput) : Type 0 where
  pub of_run : o.run_id ≡ r.manifest.run_id
  pub of_event : o.input_event_id ≡ event.captured.event_id
  pub at_position : o.input_position ≡ event.position
  pub of_aggregate : o.aggregate_id ≡ aggregate
  pub keyed : o.dedupe_key ≡ dedupe_key_of o.body
  pub scheduled : o.not_before_logical_ms ≡ not_before_of o.body
  pub hashed : compute_body_hash p o.body ≡ ok o.body_hash
  pub identified :
      compute_output_id p o.run_id r.manifest_hash event.event_hash aggregate
        (category_of o.body)
        o.ordinal
        o.body_hash
      ≡ ok o.output_id

-- Numbers that count up from a number.
abbrev pub count_up : ℕ → ℕ → List ℕ
count_up n zero = []
count_up n (suc k) = n ∷ count_up (suc n) k

module _ (p : Platform) (r : RunRegistration) (event : StoredEvent) (aggregate : String) where
  materialize_one-IsOutputOf :
      (n : ℕ) (body : OutputBody) (dedupe dedupe' : List String) (o : ImmutableOutput)
      → materialize_one p r event aggregate n body dedupe ≡ ok (o, dedupe')
      → (o.body ≡ body) × (o.ordinal ≡ n) × IsOutputOf p r event aggregate o
  unfolding materialize_one
  materialize_one-IsOutputOf n body dedupe dedupe' o h =
      let (_, _, h₁) = >>=-eq-ok (output_body p body r.manifest.run_id) _ h in
      let (_, _, h₂) = >>=-eq-ok (within p persisted_limits (body_json body)) _ h₁ in
      let (_, _, h₃) = >>=-eq-ok (canonical_json p.stringify (body_json body)) _ h₂ in
      let (d, _, h₄) =
        >>=-eq-ok (add_dedupe p r.manifest.run_id body (dedupe_key_of body) dedupe) _ h₃ in
      let (hash, hashed, h₅) = >>=-eq-ok (compute_body_hash p body) _ h₄ in
      let (id, identified, h₆) =
        >>=-eq-ok
          (compute_output_id p r.manifest.run_id r.manifest_hash event.event_hash aggregate
            (category_of body) n hash)
          _ h₅ in
      let same = ap (λ x. x.0) (ok_injective h₆) in
      rw same (
        refl,
        refl,
        record {
          of_run = refl;
          of_event = refl;
          at_position = refl;
          of_aggregate = refl;
          keyed = refl;
          scheduled = refl;
          hashed = hashed;
          identified = identified;
        },
      )

  -- A group keeps the bodies, in their order, and numbers them.
  materialize_group-outputs :
      (n : ℕ) (bodies : List OutputBody) (dedupe : List String)
      (result : List ImmutableOutput × List String)
      → materialize_group p r event aggregate n bodies dedupe ≡ ok result
      → (map (λ o. o.body) result.0 ≡ bodies)
        × (map (λ o. o.ordinal) result.0 ≡ count_up n (length bodies))
        × All (IsOutputOf p r event aggregate) result.0
  unfolding materialize_group
  materialize_group-outputs n [] dedupe result h =
      let same = ap (λ x. x.0) (ok_injective h) in
      (ap (λ os. map (λ o. o.body) os) same, ap (λ os. map (λ o. o.ordinal) os) same, rw same tt)
  materialize_group-outputs n (body ∷ bodies) dedupe result h =
      let ((o, dedupe'), made, h₁) =
        >>=-eq-ok (materialize_one p r event aggregate n body dedupe) _ h in
      let (rest, grouped, h₂) =
        >>=-eq-ok (materialize_group p r event aggregate (suc n) bodies dedupe') _ h₁ in
      let (of_body, numbered, output) = materialize_one-IsOutputOf n body dedupe dedupe' o made in
      let (bodies', ordinals, outputs) =
        materialize_group-outputs (suc n) bodies dedupe' rest grouped in
      let same : result.0 ≡ o ∷ rest.0 = ap (λ x. x.0) (ok_injective h₂) in
      (
        ap (λ os. map (λ x. x.body) os) same
            ∙ ap (λ b. b ∷ map (λ x. x.body) rest.0) of_body
            ∙ ap (λ bs. body ∷ bs) bodies',
        ap (λ os. map (λ x. x.ordinal) os) same
            ∙ ap (λ k. k ∷ map (λ x. x.ordinal) rest.0) numbered
            ∙ ap (λ ks. n ∷ ks) ordinals,
        rw same (output, outputs),
      )

map-append3 {ℓ κ} :
    {A : Type ℓ} {B : Type κ} (f : A → B) (xs ys zs : List A)
    → map f (xs ++ (ys ++ zs)) ≡ map f xs ++ (map f ys ++ map f zs)
map-append3 f xs ys zs = map-append f xs (ys ++ zs) ∙ ap (λ t. map f xs ++ t) (map-append f ys zs)

-- The outputs that `#materialize` makes of a transition: their bodies are its decisions, then its jobs, then
-- its outbox messages, each group in the transition's order and numbered from 0, none dropped or added;
-- and each is of the run, the event and the aggregate, with the delivery keys of its body, the
-- hash of its body and the ID that verifyProcessingCommit computes.
pub materialize-outputs :
    (p : Platform) (r : RunRegistration) (event : StoredEvent) (aggregate : String) (t : Transition)
    (os : List ImmutableOutput)
    → materialize p r event aggregate t ≡ ok os
    → (map (λ o. o.body) os
        ≡ map decision t.decisions ++ (map job t.jobs ++ map outbox_message t.outbox))
      × (map (λ o. o.ordinal) os
          ≡ count_up 0 (length t.decisions)
            ++ (count_up 0 (length t.jobs) ++ count_up 0 (length t.outbox)))
      × All (IsOutputOf p r event aggregate) os
unfolding materialize
materialize-outputs p r event aggregate t os h =
    let (ds, first, h₁) =
      >>=-eq-ok (materialize_group p r event aggregate 0 (map decision t.decisions) []) _ h in
    let (js, second, h₂) =
      >>=-eq-ok (materialize_group p r event aggregate 0 (map job t.jobs) ds.1) _ h₁ in
    let (ms, third, h₃) =
      >>=-eq-ok (materialize_group p r event aggregate 0 (map outbox_message t.outbox) js.1) _ h₂ in
    let (bodies, ordinals, outputs) =
      materialize_group-outputs p r event aggregate 0 (map decision t.decisions) [] ds first in
    let (bodies', ordinals', outputs') =
      materialize_group-outputs p r event aggregate 0 (map job t.jobs) ds.1 js second in
    let (bodies'', ordinals'', outputs'') =
      materialize_group-outputs p r event aggregate 0 (map outbox_message t.outbox) js.1 ms third in
    let same : os ≡ ds.0 ++ (js.0 ++ ms.0) = ok_injective h₃ in
    (
      ap (λ xs. map (λ o. o.body) xs) same
          ∙ map-append3 (λ o. o.body) ds.0 js.0 ms.0
          ∙ ap (λ xs. xs ++ (map (λ o. o.body) js.0 ++ map (λ o. o.body) ms.0)) bodies
          ∙ ap (λ xs. map decision t.decisions ++ (xs ++ map (λ o. o.body) ms.0)) bodies'
          ∙ ap (λ xs. map decision t.decisions ++ (map job t.jobs ++ xs)) bodies'',
      ap (λ xs. map (λ o. o.ordinal) xs) same
          ∙ map-append3 (λ o. o.ordinal) ds.0 js.0 ms.0
          ∙ ap (λ xs. xs ++ (map (λ o. o.ordinal) js.0 ++ map (λ o. o.ordinal) ms.0))
              (ordinals ∙ ap (count_up 0) (length-map t.decisions decision))
          ∙ ap (λ xs. count_up 0 (length t.decisions) ++ (xs ++ map (λ o. o.ordinal) ms.0))
              (ordinals' ∙ ap (count_up 0) (length-map t.jobs job))
          ∙ ap (λ xs. count_up 0 (length t.decisions) ++ (count_up 0 (length t.jobs) ++ xs))
              (ordinals'' ∙ ap (count_up 0) (length-map t.outbox outbox_message)),
      rw same
          (All-append _ ds.0 (js.0 ++ ms.0) outputs (All-append _ js.0 ms.0 outputs' outputs'')),
    )
