-- ===== src/Output/Rotation/Files.antt =====
-- src/output.rs: the files of a rotating output hold its events, each in one file, in their order.
use usbscope.Prelude.{
  suc, ◌+◌, ◌%◌, ◌^◌, Bool, true, false, ◌≡◌, refl, sym, ap, subst, ◌∙◌, ◌⊎◌, inl, inr, List, [],
  ◌∷◌, ◌++◌, append_assoc, append-nil, length, length-append, arith, ltb, ◌==◌, if◌then◌else◌,
}
use usbscope.Prelude.Result.{Result, ok, ◌>>=◌, >>=-eq-ok, ensure-eq-ok}
use usbscope.Capture.Event.{Spool, Event}
use usbscope.Output.Rotation.{Sink, CaptureOutput, reached, is_due, next_file, append_event, write}

module _ {S : Spool} (T : Sink S) where
  -- What one accepted event does: it is the last of the same file, or the only one of the next.
  pub data Step (o o' : CaptureOutput T) (e : Event S) : Type 0 where
    same_file :
        o'.file_index ≡ o.file_index
        → T.written o'.writer ≡ T.written o.writer ++ (e ∷ [])
        → Step o o' e
    new_file : o'.file_index ≡ suc o.file_index → T.written o'.writer ≡ e ∷ [] → Step o o' e

  append_event-Adds :
      (o o' : CaptureOutput T) (e : Event S) (b : Bool)
      → append_event T o e ≡ ok (b, o')
      → (b ≡ true)
        × (o'.file_index ≡ o.file_index)
        × (T.written o'.writer ≡ T.written o.writer ++ (e ∷ []))
  unfolding append_event
  append_event-Adds o o' e b h =
      let (w, wrote, rest) = >>=-eq-ok (T.write_event o.writer e) _ h in
      let is_b : b ≡ true = ground (arith, rest) in
      let index : o'.file_index ≡ o.file_index = ground (arith, rest) in
      let same : w ≡ o'.writer = ground (arith, rest) in
      (
        is_b,
        index,
        subst (λ v. T.written v ≡ T.written o.writer ++ (e ∷ [])) same
            (T.write_adds o.writer w e wrote),
      )

  next_file-Opens :
      (o o' : CaptureOutput T)
      → next_file T o ≡ ok o'
      → (o'.file_index ≡ suc o.file_index) × (T.written o'.writer ≡ [])
  unfolding next_file
  next_file-Opens o o' h =
      let (_, _, opened) = >>=-eq-ok (T.flush o.writer) _ h in
      let (_, kept) = ensure-eq-ok (ltb (o.file_index + 1) (2 ^ 32)) _ _ opened in
      let (w, fresh, rest) = >>=-eq-ok (T.open_file true (o.file_index + 1)) _ kept in
      let index : o'.file_index ≡ suc o.file_index = ground (arith, rest) in
      let same : w ≡ o'.writer = ground (arith, rest) in
      (index, subst (λ v. T.written v ≡ []) same (T.open_empty true _ w fresh))

  -- The limit of files is reached.
  abbrev pub IsFull : CaptureOutput T → Type 0
  IsFull o = reached o.max_files ((o.file_index + 1) % 2 ^ 32) ≡ true

  if-cases :
      (c d : Bool) {x y z v : Result (Bool × CaptureOutput T)}
      → (if c then if d then x else y else z) ≡ v
      → (z ≡ v) ⊎ ((d ≡ true) × (x ≡ v)) ⊎ (y ≡ v)
  if-cases true true h = inr (inl (refl, h))
  if-cases true false h = inr (inr h)
  if-cases false d h = inl h

  appended-Step :
      (o m o' : CaptureOutput T) (e : Event S) (b : Bool)
      → next_file T o ≡ ok m
      → append_event T m e ≡ ok (b, o')
      → (b ≡ true) × Step o o' e
  appended-Step o m o' e b opened h =
      let (index, empty) = next_file-Opens o m opened in
      let (done, kept, adds) = append_event-Adds m o' e b h in
      (done, new_file (kept ∙ index) (adds ∙ ap (λ l. l ++ (e ∷ [])) empty))

  pub write-Step :
      (o o' : CaptureOutput T) (e : Event S) (b : Bool)
      → write T o e ≡ ok (b, o')
      → ((b ≡ true) × Step o o' e) ⊎ ((b ≡ false) × (o' ≡ o) × IsFull o)
  unfolding write
  write-Step o o' e b h =
      elim (if-cases (is_due T o e.meta.timestamp_ns)
        (reached o.max_files ((o.file_index + 1) % 2 ^ 32)) h) [
          | inl stays ↦
              let (done, kept, adds) = append_event-Adds o o' e b stays in
              inl (done, same_file kept adds)
          | inr (inl (limit, full)) ↦ inr (ground (arith, full), ground (arith, full), limit)
          | inr (inr rotates) ↦
              let (m, opened, rest) = >>=-eq-ok (next_file T o) _ rotates in
              inl (appended-Step o m o' e b opened rest)
        ]

-- Every event of a list in turn, until the output is full; the contents of the files that were left.
module _ {S : Spool} (T : Sink S) where
  unfoldable pub leave :
      CaptureOutput T → CaptureOutput T → List (List (Event S)) → List (List (Event S))
  leave o o' closed =
      if o'.file_index == o.file_index then closed else closed ++ (T.written o.writer ∷ [])

  unfoldable pub write_all :
      List (Event S)
      → List (List (Event S))
      → CaptureOutput T
      → Result (List (List (Event S)) × CaptureOutput T)
  unfolding leave
  write_all [] closed o = ok (closed, o)
  write_all (e ∷ es) closed o = write T o e >>= λ done. elim done.0 [
    | false ↦ ok (closed, done.1)
    | true ↦ write_all es (leave o done.1 closed) done.1
  ]

abbrev pub concat {ℓ} : {A : Type ℓ} → List (List A) → List A
concat [] = []
concat (l ∷ ls) = l ++ concat ls

concat-append {ℓ} :
    {A : Type ℓ} (ls ms : List (List A)) → concat (ls ++ ms) ≡ concat ls ++ concat ms
concat-append [] ms = refl
concat-append (l ∷ ls) ms =
    ap (λ t. l ++ t) (concat-append ls ms) ∙ sym (append_assoc l (concat ls) (concat ms))

module _ {S : Spool} (T : Sink S) where
  -- Where a run of events ends: the files that were left, then the open one, hold the events that
  -- were there and then those of the run, up to those that are refused; and the files are numbered
  -- one by one.
  pub record Keeps (es : List (Event S)) (closed closed' : List (List (Event S)))
      (o o' : CaptureOutput T) : Type 0 where
    pub refused : List (Event S)
    pub in_order :
        concat closed' ++ (T.written o'.writer ++ refused)
        ≡ concat closed ++ (T.written o.writer ++ es)
    pub numbered : o'.file_index + length closed ≡ o.file_index + length closed'
    pub reason : (refused ≡ []) ⊎ IsFull T o'

  leave_same :
      (o o' : CaptureOutput T) (closed : List (List (Event S)))
      → o'.file_index ≡ o.file_index
      → leave T o o' closed ≡ closed
  unfolding leave
  leave_same o o' closed h = ground arith

  leave_next :
      (o o' : CaptureOutput T) (closed : List (List (Event S)))
      → o'.file_index ≡ suc o.file_index
      → leave T o o' closed ≡ closed ++ (T.written o.writer ∷ [])
  unfolding leave
  leave_next o o' closed h = ground arith

  stopped-Keeps :
      (es : List (Event S)) (closed closed' : List (List (Event S))) (o o' : CaptureOutput T)
      → closed' ≡ closed
      → o' ≡ o
      → (es ≡ []) ⊎ IsFull T o
      → Keeps es closed closed' o o'
  stopped-Keeps es closed closed' o o' ec eo why = record {
    refused = es;
    in_order = rw (ec, eo) refl;
    numbered = rw (ec, eo) refl;
    reason = rw eo why;
  }

  same_file-Keeps :
      (e : Event S) (es : List (Event S)) (closed closed' : List (List (Event S)))
      (o m o' : CaptureOutput T)
      → m.file_index ≡ o.file_index
      → T.written m.writer ≡ T.written o.writer ++ (e ∷ [])
      → Keeps es closed closed' m o'
      → Keeps (e ∷ es) closed closed' o o'
  same_file-Keeps e es closed closed' o m o' index adds k =
      let joined = ap (λ t. t ++ es) adds ∙ append_assoc (T.written o.writer) (e ∷ []) es in
      record {
        refused = k.refused;
        in_order = k.in_order ∙ ap (λ t. concat closed ++ t) joined;
        numbered = omega (arith, k.numbered, index);
        reason = k.reason;
      }

  new_file-Keeps :
      (e : Event S) (es : List (Event S)) (closed closed' : List (List (Event S)))
      (o m o' : CaptureOutput T)
      → m.file_index ≡ suc o.file_index
      → T.written m.writer ≡ e ∷ []
      → Keeps es (closed ++ (T.written o.writer ∷ [])) closed' m o'
      → Keeps (e ∷ es) closed closed' o o'
  new_file-Keeps e es closed closed' o m o' index only k =
      let w = T.written o.writer in
      let left = concat-append closed (w ∷ []) ∙ ap (λ t. concat closed ++ t) (append-nil w) in
      record {
        refused = k.refused;
        in_order =
            k.in_order
            ∙ ap (λ t. concat (closed ++ (w ∷ [])) ++ (t ++ es)) only
            ∙ ap (λ t. t ++ (e ∷ es)) left
            ∙ append_assoc (concat closed) w (e ∷ es);
        numbered = omega (arith, k.numbered, index, length-append closed (w ∷ []));
        reason = k.reason;
      }

  -- A run of events that meets no error: the files that were left and the open one hold the events
  -- of the run in their order, each in one file, up to those that are refused; events are refused
  -- only once the limit of files is reached, and the file's index counts the files that were left.
  pub write_all-Keeps :
      (es : List (Event S)) (closed closed' : List (List (Event S))) (o o' : CaptureOutput T)
      → write_all T es closed o ≡ ok (closed', o')
      → Keeps es closed closed' o o'
  unfolding write_all
  write_all-Keeps [] closed closed' o o' h =
      stopped-Keeps [] closed closed' o o' (ground (arith, h)) (ground (arith, h)) (inl refl)
  write_all-Keeps (e ∷ es) closed closed' o o' h =
      let ((b, m), step, rest) = >>=-eq-ok (write T o e) _ h in
      let run : List (List (Event S)) → Type 0 = (λ c. write_all T es c m ≡ ok (closed', o')) in
      elim (write-Step T o m e b step) [
        | inr (stop, same, full) ↦
            stopped-Keeps (e ∷ es) closed closed' o o' (ground (arith, rest, stop))
              (ground (arith, rest, stop, same)) (inr full)
        | inl (go, same_file index adds) ↦
            let next : write_all T es (leave T o m closed) m ≡ ok (closed', o') =
              ground (arith, rest, go) in
            same_file-Keeps e es closed closed' o m o' index adds (
              write_all-Keeps es closed closed' m o' (subst run (leave_same o m closed index) next))
        | inl (go, new_file index only) ↦
            let next : write_all T es (leave T o m closed) m ≡ ok (closed', o') =
              ground (arith, rest, go) in
            new_file-Keeps e es closed closed' o m o' index only
              (write_all-Keeps es _ closed' m o' (subst run (leave_next o m closed index) next))
      ]
