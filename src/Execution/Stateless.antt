-- ===== src/Execution/Stateless.antt =====
-- The mock adapter of octora-api/src/modules/execution keeps pods, which no answer ever shows: it
-- implements a port without a state.
use octora.Base.{
  String, ◌≡◌, refl, ap, sym, subst, ◌∙◌, inl, inr, Option, some, List, [], ◌∷◌, map, ◌===◌, eq_iff,
  Bool-cases, Option-cases, arith,
}
use octora.Base.Table.{lookup, insert, lookup-insert, lookup-insert_self}
use octora.Base.Effect.{Result, ok, ◌>>=◌}
use octora.Domain.{ExecutionMode}
use octora.Store.{Error}
use octora.Platform.{PrepareFundingInput, PrepareExitInput, PrivacyReceipt, PrivacyAdapter}
use octora.Execution.{
  PodRecord, PodStatus, mock_pod_timestamp_iso, Pods, CreatePodInput, open_pod, closed_pod,
  format_pod_id, fresh_pod, create_pod, close_one, close_pod, build_mock_funding_receipt,
  build_mock_exit_receipt, mock_prepare_funding, mock_prepare_exit,
}

-- The port without a state.
abbrev pub stateless_adapter : PrivacyAdapter
stateless_adapter = record {
  prepare_funding =
      λ input. ok (build_mock_funding_receipt (format_pod_id input.position_id) input);
  prepare_exit = λ input. ok (build_mock_exit_receipt (format_pod_id input.position_id) input);
}

pub data PortCall : Type 0 where
  funds : PrepareFundingInput → PortCall
  exits : PrepareExitInput → PortCall

abbrev pub answer : PrivacyAdapter → PortCall → Result Error PrivacyReceipt
answer adapter (funds input) = adapter.prepare_funding input
answer adapter (exits input) = adapter.prepare_exit input

abbrev pub call_mock : PortCall → Pods → Result Error PrivacyReceipt × Pods
call_mock (funds input) = mock_prepare_funding input
call_mock (exits input) = mock_prepare_exit input

-- The answers to a run of calls.
abbrev pub run_mock : List PortCall → Pods → List (Result Error PrivacyReceipt)
run_mock [] pods = []
run_mock (c ∷ calls) pods = let r = call_mock c pods in r.0 ∷ run_mock calls r.1

-- Each pod stands under its own id.
abbrev IsKeyed : Pods → Type 0
IsKeyed pods = (key : String) (pod : PodRecord) → lookup key pods ≡ some pod → pod.id ≡ key

same_pod : (found : Option PodRecord) {a b : PodRecord} → found ≡ some a → found ≡ some b → a ≡ b
same_pod found h k = cc

insert-IsKeyed :
    (key : String) (pod : PodRecord) (pods : Pods)
    → IsKeyed pods
    → pod.id ≡ key
    → IsKeyed (insert key pod pods)
insert-IsKeyed key pod pods keyed same at found h = elim (Bool-cases (key === at)) [
  | inl e ↦
      let stored =
        subst (λ k. lookup k (insert key pod pods) ≡ some pod) ((eq_iff key at).0 e)
          (lookup-insert_self key pod pods) in
      sym (ap (λ p. p.id) (same_pod (lookup at (insert key pod pods)) stored h))
      ∙ same
      ∙ (eq_iff key at).0 e
  | inr e ↦ keyed at found (ground (arith, lookup-insert key at pod pods, e, h))
]

-- What a call of `createPod` or `closePod` gives: the pod under this id, which then stands in the table.
abbrev Gives : String → Result Error PodRecord × Pods → Type 0
Gives id r =
    (pod : PodRecord) × (r.0 ≡ ok pod) × (pod.id ≡ id) × IsKeyed r.1 × (lookup id r.1 ≡ some pod)

create_pod-Gives :
    (input : CreatePodInput) (pods : Pods)
    → IsKeyed pods
    → Gives (format_pod_id input.position_id) (create_pod input pods)
unfolding create_pod
create_pod-Gives input pods keyed =
    let id = format_pod_id input.position_id in
    elim (Option-cases (lookup id pods)) [
      | inr (pod, e) ↦ rw (create_pod, e) (pod, refl, keyed id pod e, keyed, e)
      | inl e ↦
          rw (create_pod, e)
            (
              fresh_pod input,
              refl,
              refl,
              insert-IsKeyed id (fresh_pod input) pods keyed refl,
              lookup-insert_self id (fresh_pod input) pods,
            )
    ]

close_one-Gives :
    (id : String) (status : PodStatus) (pod : PodRecord) (pods : Pods)
    → IsKeyed pods
    → pod.id ≡ id
    → lookup id pods ≡ some pod
    → Gives id (close_one id status pod pods)
close_one-Gives id closed_pod pod pods keyed same h = (pod, refl, same, keyed, h)
close_one-Gives id open_pod pod pods keyed same h =
    let closed = record pod { status = closed_pod; closed_at_iso = some mock_pod_timestamp_iso } in
    (
      closed,
      refl,
      same,
      insert-IsKeyed id closed pods keyed same,
      lookup-insert_self id closed pods,
    )

close_pod-Gives :
    (id : String) (pod : PodRecord) (pods : Pods)
    → IsKeyed pods
    → lookup id pods ≡ some pod
    → Gives id (close_pod id pods)
unfolding close_pod
close_pod-Gives id pod pods keyed h =
    rw (close_pod, h) (close_one-Gives id pod.status pod pods keyed (keyed id pod h) h)

abbrev pod_input : String → ExecutionMode → CreatePodInput
pod_input position_id mode = record { position_id = position_id; mode = mode }

-- One call: the answer of the port without a state, and pods under their ids.
call_mock-IsKeyed :
    (c : PortCall) (pods : Pods)
    → IsKeyed pods
    → ((call_mock c pods).0 ≡ answer stateless_adapter c) × IsKeyed (call_mock c pods).1
unfolding mock_prepare_funding mock_prepare_exit ◌>>=◌
call_mock-IsKeyed (funds input) pods keyed =
    let input' = pod_input input.position_id input.mode in
    let (pod, r, same, later, l) = create_pod-Gives input' pods keyed in
    (rw r (ap (λ id. ok (build_mock_funding_receipt id input)) same), rw r later)
call_mock-IsKeyed (exits input) pods keyed =
    let input' = pod_input input.position_id input.mode in
    let (pod, r, same, later, l) = create_pod-Gives input' pods keyed in
    let (closed, q, same', last, l') =
      close_pod-Gives pod.id pod (create_pod input' pods).1 later
        (subst (λ id. lookup id (create_pod input' pods).1 ≡ some pod) (sym same) l) in
    (rw (r, q) (ap (λ id. ok (build_mock_exit_receipt id input)) (same' ∙ same)), rw (r, q) last)

-- Whatever calls come in whatever order, from the first one on, the mock adapter answers each as the port
-- without a state does.
pub run_mock-answers :
    (calls : List PortCall) → run_mock calls [] ≡ map (answer stateless_adapter) calls
unfolding lookup
run_mock-answers calls = from calls [] (λ key pod h. absurd (ground (arith, h)))
  where
    from :
        (calls : List PortCall) (pods : Pods)
        → IsKeyed pods
        → run_mock calls pods ≡ map (answer stateless_adapter) calls
    from [] pods keyed = refl
    from (c ∷ calls) pods keyed =
        let (same, later) = call_mock-IsKeyed c pods keyed in
        rw (same)
          (ap (λ xs. answer stateless_adapter c ∷ xs) (from calls (call_mock c pods).1 later))
