-- ===== src/Net/Connection/Stream.antt =====
-- Connection.cpp: the bytes that reach the socket against those that were queued.
use aorta.Prelude.{
  ℕ, suc, ◌+◌, ◌≤◌, ◌≡◌, refl, sym, ap, ◌∙◌, true, ◌||◌, none, some, List, [], ◌∷◌, ◌++◌,
  append_assoc, Bytes, length, length-take, take_rest, drop_all, drop_nil, drop-add, take, drop,
  leb, leb→le, ==→≡, or_right, Bool-cases, ◌==◌, null, arith, Bool-cases, inl, inr, if_intro,
}
use aorta.Net.Connection.Defs.{OutputType, memory, file, OutputBuffer, Connection}
use aorta.Net.Connection.Output.{
  size_by, output_size, pop_output, pop_sent, Transfer, offered_by, offered, transfer, write,
}
use aorta.Net.Connection.Writes.{write_keeps}
use aorta.Net.Connection.Accounts.{size_by-offset}

module _ (files : ℕ → Bytes) where
  -- What is still to be sent of a queue.
  unfoldable pub pending : List OutputBuffer → Bytes
  pending [] = []
  pending (output ∷ queue) = offered files output ++ pending queue

  -- What was sent and what is still to be sent.
  abbrev pub stream : Connection → Bytes
  stream c = c.wire ++ pending c.output_queue

  offered_by-spent :
      (t : OutputType) (output : OutputBuffer)
      → size_by t output ≤ output.offset
      → offered_by t files output ≡ []
  unfolding offered_by size_by
  offered_by-spent memory output h = drop_all output.offset output.content h
  offered_by-spent file output h =
      elim (output.file_fd)
        as (λ o.
          drop output.offset (elim o [ none ↦ [] | some fd ↦ take output.file_size (files fd) ])
          ≡ []) [
            | none ↦ drop_nil output.offset
            | some fd ↦
                drop_all output.offset _ (omega (arith, h, length-take output.file_size (files fd)))
          ]

  offered_by-moved :
      (t : OutputType) (output : OutputBuffer) (n : ℕ)
      → offered_by t files (record output { offset = output.offset + n })
        ≡ drop n (offered_by t files output)
  unfolding offered_by
  offered_by-moved memory output n = drop-add output.offset n output.content
  offered_by-moved file output n = drop-add output.offset n _

  -- What is sent of an output and what is left of it make up what it offered.
  sent_and_left :
      (n : ℕ) (output : OutputBuffer)
      → let sent = take n (offered files output) in
        sent ++ offered files (record output { offset = output.offset + length sent })
        ≡ offered files output
  sent_and_left n output =
      let s = offered files output in
      ap (◌++◌ (take n s)) (offered_by-moved output.type output (length (take n s))) ∙ take_rest n s

  stream_front :
      (output : OutputBuffer) (rest : List OutputBuffer) (c : Connection)
      → c.output_queue ≡ output ∷ rest
      → stream c ≡ c.wire ++ (offered files output ++ pending rest)
  unfolding pending
  stream_front output rest c e = ap (λ q. c.wire ++ pending q) e

  regroup : (w a b s r : Bytes) → a ++ b ≡ s → (w ++ a) ++ (b ++ r) ≡ w ++ (s ++ r)
  regroup w a b s r e =
      append_assoc w a (b ++ r) ∙ ap (◌++◌ w) (sym (append_assoc a b r) ∙ ap (λ t. t ++ r) e)

  empty_part : (n : ℕ) (s : Bytes) → null (take (suc n) s) ≡ true → s ≡ []
  empty_part n [] h = refl
  empty_part n (x ∷ s) h = cc

  -- An output that `transfer` pops has nothing left.
  gone :
      (n : ℕ) (output : OutputBuffer)
      → let sent = take (suc n) (offered files output) in
        let out : OutputBuffer = record output { offset = output.offset + length sent } in
        (null sent || out.offset == output_size output) ≡ true → offered files out ≡ []
  gone n output t =
      let s = offered files output in
      let sent = take (suc n) s in
      let out : OutputBuffer = record output { offset = output.offset + length sent } in
      elim (Bool-cases (null sent)) [
        | inl e ↦
            offered_by-moved output.type output (length sent)
            ∙ ap (drop (length sent)) (empty_part n s e)
            ∙ drop_nil (length sent)
        | inr e ↦
            let full = ==→≡ _ _ (or_right (null sent) (out.offset == output_size output) t e) in
            offered_by-spent output.type out
              (omega (arith, full, size_by-offset output.type output out.offset))
      ]

  pop_sent-stream :
      (queue : List OutputBuffer) (c : Connection)
      → c.output_queue ≡ queue
      → stream (pop_sent queue c) ≡ stream c
  unfolding pop_sent pop_output pending
  pop_sent-stream [] c e = refl
  pop_sent-stream (output ∷ rest) c e =
      if_intro (λ d. stream d ≡ stream c) (leb (output_size output) output.offset)
        (λ t.
          pop_sent-stream rest (pop_output output rest c) refl
          ∙ ap (λ s. c.wire ++ (s ++ pending rest))
              (sym (offered_by-spent output.type output (leb→le _ _ t)))
          ∙ sym (stream_front output rest c e))
        (λ t. refl)

  transfer-stream :
      (n : ℕ) (output : OutputBuffer) (rest : List OutputBuffer) (c : Connection)
      → c.output_queue ≡ output ∷ rest
      → stream (transfer (take (suc n) (offered files output)) output rest c) ≡ stream c
  unfolding transfer pop_output pending
  transfer-stream n output rest c e =
      let sent = take (suc n) (offered files output) in
      let out : OutputBuffer = record output { offset = output.offset + length sent } in
      if_intro (λ d. stream d ≡ stream c) (null sent || out.offset == output_size output)
        (λ t.
          ap (λ s. (c.wire ++ sent) ++ (s ++ pending rest)) (sym (gone n output t))
          ∙ regroup c.wire sent _ _ (pending rest) (sent_and_left (suc n) output)
          ∙ sym (stream_front output rest c e))
        (λ t.
          regroup c.wire sent _ _ (pending rest) (sent_and_left (suc n) output)
          ∙ sym (stream_front output rest c e))

  -- `write` loses no byte, sends none twice and changes no order: what it has sent and what is still queued
  -- make up the same bytes as before, whatever the calls answer.
  pub write-stream :
      (answers : List Transfer) (c : Connection) → stream (write files answers c).1 ≡ stream c
  write-stream answers c =
      write_keeps (λ d. stream d ≡ stream c) files
        (λ d h. pop_sent-stream d.output_queue d refl ∙ h)
        (λ n output rest d e h. transfer-stream n output rest d e ∙ h) answers c refl
