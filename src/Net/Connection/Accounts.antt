-- ===== src/Net/Connection/Accounts.antt =====
-- Connection.cpp: the accounting of the output queue.
use aorta.Prelude.{
  ℕ, suc, ◌+◌, ◌≤◌, ◌≡◌, refl, subst, Bool, ◌||◌, Option, none, some, List, [], ◌∷◌, ◌++◌, Bytes,
  length, length-take, length-drop, take, drop, ltb, leb, ◌==◌, null, sub_size, arith, if_intro,
}
use aorta.Net.Connection.Defs.{
  max_output_queue_size, OutputType, memory, file, OutputBuffer, Connection,
}
use aorta.Net.Connection.Writes.{write_keeps}
use aorta.Net.Connection.Output.{
  queue_response, queue_file, queue_opened, size_by, output_size, pop_output, pop_sent, Transfer,
  offered_by, offered, transfer, write,
}

unfoldable pub queue_total : List OutputBuffer → ℕ
queue_total [] = 0
queue_total (output ∷ queue) = output_size output + queue_total queue

unfoldable pub AllWithin : List OutputBuffer → Type 0
AllWithin [] = Unit {0}
AllWithin (output ∷ queue) = (output.offset ≤ output_size output) × AllWithin queue

-- A queue and the size that is kept for it.
abbrev pub Accounted : List OutputBuffer → ℕ → Type 0
Accounted queue size = (size ≡ queue_total queue) × (size ≤ max_output_queue_size) × AllWithin queue

-- `output_queue_size` is the sum of the sizes of what is queued and at most 8 MiB, and no offset is past
-- its output's end.
abbrev pub IsAccounted : Connection → Type 0
IsAccounted c = Accounted c.output_queue c.output_queue_size

queue_total-snoc :
    (queue : List OutputBuffer) (output : OutputBuffer)
    → queue_total (queue ++ output ∷ []) ≡ queue_total queue + output_size output
unfolding queue_total
queue_total-snoc [] output = omega arith
queue_total-snoc (o ∷ queue) output = omega (arith, queue_total-snoc queue output)

AllWithin-snoc :
    (queue : List OutputBuffer) (output : OutputBuffer)
    → AllWithin queue
    → output.offset ≤ output_size output
    → AllWithin (queue ++ output ∷ [])
unfolding AllWithin
AllWithin-snoc [] output w h = (h, tt)
AllWithin-snoc (o ∷ queue) output (first, w) h = (first, AllWithin-snoc queue output w h)

Accounted-snoc :
    (queue : List OutputBuffer) (size : ℕ) (output : OutputBuffer)
    → Accounted queue size
    → output.offset ≤ output_size output
    → size + output_size output ≤ max_output_queue_size
    → Accounted (queue ++ output ∷ []) (size + output_size output)
Accounted-snoc queue size output (counted, bounded, within) h fits = (
  omega (arith, counted, queue_total-snoc queue output),
  fits,
  AllWithin-snoc queue output within h,
)

Accounted-pop :
    (output : OutputBuffer) (rest : List OutputBuffer) (size : ℕ)
    → Accounted (output ∷ rest) size
    → Accounted rest (sub_size size (output_size output))
unfolding queue_total AllWithin
Accounted-pop output rest size (counted, bounded, (first, within)) =
    (ground (arith, counted), ground (arith, counted, bounded), within)

moved :
    {queue queue' : List OutputBuffer} {size : ℕ}
    → queue ≡ queue'
    → Accounted queue size
    → Accounted queue' size
moved {size = n} e h = subst (λ q. Accounted q n) e h

pub pop_sent-IsAccounted :
    (queue : List OutputBuffer) (c : Connection)
    → c.output_queue ≡ queue
    → IsAccounted c
    → IsAccounted (pop_sent queue c)
unfolding pop_sent pop_output
pop_sent-IsAccounted [] c e h = h
pop_sent-IsAccounted (output ∷ rest) c e h =
    if_intro IsAccounted (leb (output_size output) output.offset)
      (λ t.
        pop_sent-IsAccounted rest (pop_output output rest c) refl
          (Accounted-pop output rest c.output_queue_size (moved e h)))
      (λ t. h)

pub size_by-offset :
    (t : OutputType) (output : OutputBuffer) (n : ℕ)
    → size_by t (record output { offset = n }) ≡ size_by t output
unfolding size_by
size_by-offset memory output n = refl
size_by-offset file output n = refl

Accounted-offset :
    (output : OutputBuffer) (rest : List OutputBuffer) (size n : ℕ)
    → n ≤ output_size output
    → Accounted (output ∷ rest) size
    → Accounted (record output { offset = n } ∷ rest) size
unfolding queue_total AllWithin
Accounted-offset output rest size n fits (counted, bounded, (first, within)) =
    let same = size_by-offset output.type output n in
    (omega (arith, counted, same), bounded, (omega (arith, fits, same), within))

transfer-IsAccounted :
    (sent : Bytes) (output : OutputBuffer) (rest : List OutputBuffer) (c : Connection)
    → c.output_queue ≡ output ∷ rest
    → output.offset + length sent ≤ output_size output
    → IsAccounted c
    → IsAccounted (transfer sent output rest c)
unfolding transfer pop_output
transfer-IsAccounted sent output rest c e fits h =
    let out : OutputBuffer = record output { offset = output.offset + length sent } in
    let d : Connection = record c { output_queue = out ∷ rest; wire = c.wire ++ sent } in
    let kept =
      Accounted-offset output rest c.output_queue_size (output.offset + length sent) fits
        (moved e h) in
    if_intro IsAccounted (null sent || out.offset == output_size output)
      (λ t. Accounted-pop out rest c.output_queue_size kept) (λ t. kept)

drop_part : (n size : ℕ) (s : Bytes) → n ≤ size → length s ≤ size → n + length (drop n s) ≤ size
drop_part n size s h k = omega (arith, length-drop n s)

pub offered_by-length :
    (t : OutputType) (files : ℕ → Bytes) (output : OutputBuffer)
    → output.offset ≤ size_by t output
    → output.offset + length (offered_by t files output) ≤ size_by t output
unfolding offered_by size_by
offered_by-length memory files output h = omega (arith, length-drop output.offset output.content)
offered_by-length file files output h =
    elim (output.file_fd)
      as (λ o.
        output.offset
          + length (
              drop output.offset
                (elim o [ none ↦ [] | some fd ↦ take output.file_size (files fd) ]))
        ≤ output.file_size) [
          | none ↦ drop_part output.offset output.file_size [] h (omega arith)
          | some fd ↦
              drop_part output.offset output.file_size (take output.file_size (files fd)) h
                (omega (arith, length-take output.file_size (files fd)))
        ]

transferred :
    (files : ℕ → Bytes) (n : ℕ) (output : OutputBuffer) (rest : List OutputBuffer) (c : Connection)
    → c.output_queue ≡ output ∷ rest
    → IsAccounted c
    → IsAccounted (transfer (take n (offered files output)) output rest c)
unfolding AllWithin
transferred files n output rest c e h =
    let within = (moved e h).2 in
    transfer-IsAccounted (take n (offered files output)) output rest c e
      (omega (
        arith,
        length-take n (offered files output),
        offered_by-length output.type files output within.0,
      ))
      h

-- Writing keeps the accounting, whatever the calls answer.
pub write-IsAccounted :
    (files : ℕ → Bytes) (answers : List Transfer) (c : Connection)
    → IsAccounted c
    → IsAccounted (write files answers c).1
write-IsAccounted files =
    write_keeps IsAccounted files (λ c h. pop_sent-IsAccounted c.output_queue c refl h)
      (λ n output rest c e h. transferred files (suc n) output rest c e h)

queued-IsAccounted :
    (output : OutputBuffer) (c : Connection)
    → output.offset ≤ output_size output
    → c.output_queue_size + output_size output ≤ max_output_queue_size
    → IsAccounted c
    → IsAccounted (record c {
      output_queue = c.output_queue ++ output ∷ [];
      output_queue_size = c.output_queue_size + output_size output;
    })
queued-IsAccounted output c h fits acc =
    Accounted-snoc c.output_queue c.output_queue_size output acc h fits

pub queue_response-IsAccounted :
    (response : Bytes) (c : Connection) → IsAccounted c → IsAccounted (queue_response response c).1
unfolding queue_response size_by
queue_response-IsAccounted response c h =
    if_intro (λ (r : Bool × Connection). IsAccounted r.1)
      (ltb max_output_queue_size (length response)) (λ t. h)
      λ t.
        if_intro (λ (r : Bool × Connection). IsAccounted r.1)
          (ltb max_output_queue_size (c.output_queue_size + length response)) (λ u. h)
          λ u. queued-IsAccounted _ c (omega arith) (ground (arith, u)) h

pub queue_file-IsAccounted :
    (opened : Option ℕ) (file_size : ℕ) (c : Connection)
    → IsAccounted c
    → IsAccounted (queue_file opened file_size c).1
unfolding queue_file queue_opened size_by
queue_file-IsAccounted opened file_size c h =
    if_intro (λ (r : Bool × Connection). IsAccounted r.1) (ltb max_output_queue_size file_size)
      (λ t. h)
      λ t.
        if_intro (λ (r : Bool × Connection). IsAccounted r.1)
          (ltb max_output_queue_size (c.output_queue_size + file_size)) (λ u. h)
          λ u. elim opened as (λ o. IsAccounted (queue_opened o file_size c).1) [
            | none ↦ h
            | some fd ↦ queued-IsAccounted _ c (omega arith) (ground (arith, u)) h
          ]
