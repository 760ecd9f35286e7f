-- ===== src/Images/Pooled/Gathered.antt =====
-- src/services/protocol/conversation.rs: what is collected of several images.
use model2api.Common.{
  ℕ, ◌≤◌, zero, suc, ◌+◌, ◌<◌, String, ◌≡◌, refl, sym, ◌∙◌, ap, Bool, true, false, ◌||◌, some, List,
  [], ◌∷◌, ◌++◌, ℤ, length, length-append, arith, ◌⊎◌, ◌==◌, eq_iff, if◌then◌else◌, Bool-cases, inl,
  inr,
}
use mathlib.Core.List.{append_assoc, append-nil}
use model2api.Json.{Value, Fields, Host, arr, get_field}
use model2api.Json.Laws.{branch_laws}
use model2api.Storage.JsonFile.{items_of}
use model2api.Images.{ok, err, ImageGenerationError}
use model2api.Images.Output.{ImageOutput, is_result, is_message}
use model2api.Images.Single.{emitted}
use model2api.Images.Pooled.{
  Item, send_all, send_error, Joined, joined, join_error, emit_results, Collected, nothing_read,
  read_kind, read_output, collect_from, collect_image_outputs, collected_value, with_message,
}

-- The outputs of the tasks that made their image, in the order of the images.
abbrev pub produced : List Joined → List ImageOutput
produced [] = []
produced (joined (ok outputs) ∷ rest) = outputs ++ produced rest
produced (other ∷ rest) = produced rest

abbrev pub handed_on : List ImageOutput → List Item
handed_on [] = []
handed_on (o ∷ outputs) = ok o ∷ handed_on outputs

-- The images of some outputs.
abbrev pub images_in : List ImageOutput → List Value
images_in [] = []
images_in (o ∷ outputs) = if is_result o then o.entries ++ images_in outputs else images_in outputs

-- Where there is room for all outputs, all of them are taken.
send_all-fits :
    (room : ℕ) (outputs : List ImageOutput)
    → length outputs ≤ room
    → (later : ℕ) × (send_all room outputs ≡ (handed_on outputs, some later))
      × (length outputs + later ≡ room)
unfolding send_all
send_all-fits room [] h = (room, refl, omega arith)
send_all-fits zero (o ∷ outputs) h = absurd (omega (arith, h))
send_all-fits (suc room) (o ∷ outputs) h =
    let (later, e, n) = send_all-fits room outputs (omega (arith, h)) in
    (later, rw (send_all, e) refl, omega (arith, n))

told_later :
    (told : Bool) (outputs ps : List ImageOutput)
    → (told || emitted (outputs ++ ps)) ≡ true
    → ((told || emitted outputs) || emitted ps) ≡ true
told_later true outputs ps t = refl
told_later false [] ps t = t
told_later false (o ∷ outputs) ps t = refl

handed_on-append : (ps qs : List ImageOutput) → handed_on (ps ++ qs) ≡ handed_on ps ++ handed_on qs
handed_on-append [] qs = refl
handed_on-append (p ∷ ps) qs = ap (λ v. ok p ∷ v) (handed_on-append ps qs)

emit_results-told :
    (h : Host) (room : ℕ) (told : Bool) (last_error : String) (js : List Joined)
    → length (produced js) ≤ room
    → (told || emitted (produced js)) ≡ true
    → emit_results h room told last_error js ≡ handed_on (produced js)
unfolding emit_results
emit_results-told h room true last_error [] fits t = refl
emit_results-told h room false last_error [] fits t = absurd cc
emit_results-told h room told last_error (join_error e ∷ js) fits t =
    emit_results-told h room told e js fits t
emit_results-told h room told last_error (joined (err e) ∷ js) fits t =
    emit_results-told h room told e.message js fits t
emit_results-told h room told last_error (joined (ok outputs) ∷ js) fits t =
    let ps = produced js in
    let (later, e, n) =
      send_all-fits room outputs (omega (arith, fits, length-append outputs ps)) in
    let more =
      emit_results-told h later (told || emitted outputs) last_error js
        (omega (arith, fits, n, length-append outputs ps)) (told_later told outputs ps t) in
    rw (emit_results, e) (rw (more, ap (λ r. r.0) e) (sym (handed_on-append outputs ps)))

entries-read_output :
    (o : ImageOutput) (c : Collected)
    → (read_output o c).entries ≡ c.entries ++ (if is_result o then o.entries else [])
unfolding read_output read_kind
entries-read_output o c = elim (Bool-cases (o.kind == "progress")) [
  | inl told ↦
      let kind : o.kind ≡ "progress" = (eq_iff o.kind "progress").0 told in
      rw kind (sym (append-nil c.entries))
  | inr other ↦ elim (Bool-cases (is_message o)) [
    | inl said ↦
        let kind : o.kind ≡ "message" = (eq_iff o.kind "message").0 said in
        rw kind (sym (append-nil c.entries))
    | inr silent ↦ elim (Bool-cases (is_result o)) [
      | inl shown ↦ rw (other, silent, shown) refl
      | inr unknown ↦ rw (other, silent, unknown) (sym (append-nil c.entries))
    ]
  ]
]

images_cons :
    (vs : List Value) (o : ImageOutput) (outputs : List ImageOutput)
    → (vs ++ (if is_result o then o.entries else [])) ++ images_in outputs
      ≡ vs ++ images_in (o ∷ outputs)
images_cons vs o outputs = elim (Bool-cases (is_result o)) [
  | inl shown ↦ rw shown (append_assoc vs o.entries (images_in outputs))
  | inr other ↦ rw other (ap (λ v. v ++ images_in outputs) (append-nil vs))
]

collect_from-handed_on :
    (c : Collected) (outputs : List ImageOutput)
    → (d : Collected) × (collect_from c (handed_on outputs) ≡ ok d)
      × (d.entries ≡ c.entries ++ images_in outputs)
unfolding collect_from
collect_from-handed_on c [] = (c, refl, sym (append-nil c.entries))
collect_from-handed_on c (o ∷ outputs) =
    let (d, e, n) = collect_from-handed_on (read_output o c) outputs in
    (
      d,
      e,
      n
          ∙ ap (λ v. v ++ images_in outputs) (entries-read_output o c)
          ∙ images_cons c.entries o outputs,
    )

-- Where no task puts anything out, an error is all that is told.
emit_results-silent :
    (h : Host) (room : ℕ) (last_error : String) (js : List Joined)
    → 0 < room
    → emitted (produced js) ≡ false
    → (e : ImageGenerationError) × (emit_results h room false last_error js ≡ err e ∷ [])
unfolding emit_results send_error send_all
emit_results-silent h zero last_error js fits s = absurd (omega (arith, fits))
emit_results-silent h (suc room) last_error [] fits s = (_, refl)
emit_results-silent h (suc room) last_error (join_error t ∷ js) fits s =
    emit_results-silent h (suc room) t js fits s
emit_results-silent h (suc room) last_error (joined (err e) ∷ js) fits s =
    emit_results-silent h (suc room) e.message js fits s
emit_results-silent h (suc room) last_error (joined (ok []) ∷ js) fits s =
    emit_results-silent h (suc room) last_error js fits s
emit_results-silent h (suc room) last_error (joined (ok (o ∷ outputs)) ∷ js) fits s = absurd cc

with_message-data :
    (vs : List Value) (c : Collected) (result : Fields)
    → get_field "data" (with_message vs c result) ≡ get_field "data" result
unfolding with_message
with_message-data [] c result = simp branch_laws refl
with_message-data (v ∷ vs) c result = refl

collected_data :
    (now : ℤ) (c : Collected)
    → get_field "data" (collected_value now c) ≡ some (arr (items_of c.entries))
unfolding collected_value get_field
collected_data now c = simp (branch_laws, with_message-data c.entries c) refl

-- Where the receiver takes all that is put out, either some task of a parallel generation puts
-- something out, and the collected answer is no error and has the images of all tasks that made
-- theirs, in the order of the images, whatever the other tasks failed with; or none does, and the
-- answer is an error.
pub collect-emit_results :
    (h : Host) (now : ℤ) (room : ℕ) (js : List Joined)
    → length (produced js) < room
    → ((emitted (produced js) ≡ true)
        × (m : Fields) × (collect_image_outputs now (emit_results h room false "" js) ≡ ok m)
        × (get_field "data" m ≡ some (arr (items_of (images_in (produced js))))))
      ⊎ ((emitted (produced js) ≡ false)
          × (e : ImageGenerationError) × (collect_image_outputs now
                (emit_results h room false "" js)
              ≡ err e))
unfolding collect_image_outputs collect_from
collect-emit_results h now room js fits = elim (Bool-cases (emitted (produced js))) [
  | inl some_told ↦
      let (d, e, n) = collect_from-handed_on nothing_read (produced js) in
      let told = emit_results-told h room false "" js (omega (arith, fits)) some_told in
      inl (
        some_told,
        collected_value now d,
        rw (told, e) refl,
        collected_data now d ∙ ap (λ v. some (arr (items_of v))) n,
      )
  | inr silent ↦
      let (e, told) = emit_results-silent h room "" js (omega (arith, fits)) silent in
      inr (silent, e, rw told refl)
]
