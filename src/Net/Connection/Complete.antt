-- ===== src/Net/Connection/Complete.antt =====
-- Connection.cpp: what the result Complete of `write` means.
use aorta.Prelude.{
  ℕ, suc, ◌≡◌, refl, sym, ap, ◌∙◌, true, List, [], ◌∷◌, ◌++◌, append-nil, Bytes, take, null, inl,
  inr, if_intro,
}
use aorta.Net.Connection.Defs.{Connection}
use aorta.Net.Connection.Output.{
  pop_sent, Transfer, room, blocked, interrupted, failed, offered, transfer, WriteResult, complete,
  would_block, error, write,
}
use aorta.Net.Connection.Writes.{List-cases}
use aorta.Net.Connection.Stream.{pending, write-stream}

null_nil : {A : Type 0} (xs : List A) → null xs ≡ true → xs ≡ []
null_nil [] h = refl
null_nil (x ∷ xs) h = cc

blocked-complete : would_block ≡ complete → ⊥
blocked-complete e = cc

error-complete : error ≡ complete → ⊥
error-complete e = cc

-- A result that is `complete` comes with an empty queue.
abbrev Emptied : WriteResult × Connection → Type 0
Emptied (result, c) = result ≡ complete → c.output_queue ≡ []

write-Emptied :
    (files : ℕ → Bytes) (answers : List Transfer) (c : Connection) → Emptied (write files answers c)
unfolding write
write-Emptied files [] c =
    if_intro Emptied (null (pop_sent c.output_queue c).output_queue)
      (λ t e. null_nil (pop_sent c.output_queue c).output_queue t)
      (λ t e. absurd (blocked-complete e))
write-Emptied files (answer ∷ answers) c =
    elim (List-cases (pop_sent c.output_queue c).output_queue) [
      | inl e ↦ rw (e, write) (λ h. e)
      | inr (output, rest, e) ↦
          rw (e, write)
            (elim answer
              as (λ a. Emptied (elim a [
                | room n ↦ write files answers (
                    transfer (take (suc n) (offered files output)) output rest
                      (pop_sent c.output_queue c))
                | blocked ↦ (would_block, pop_sent c.output_queue c)
                | interrupted ↦ write files answers (pop_sent c.output_queue c)
                | failed ↦ (error, pop_sent c.output_queue c)
              ])) [
                | room n ↦ write-Emptied files answers _
                | blocked ↦ λ h. absurd (blocked-complete h)
                | interrupted ↦ write-Emptied files answers _
                | failed ↦ λ h. absurd (error-complete h)
              ])
    ]

-- When `write` returns Complete, nothing is queued and the socket has taken exactly what it had taken
-- before and what was queued, in order.
pub write_complete-stream :
    (files : ℕ → Bytes) (answers : List Transfer) (c : Connection)
    → (write files answers c).0 ≡ complete
    → ((write files answers c).1.output_queue ≡ [])
      × ((write files answers c).1.wire ≡ c.wire ++ pending files c.output_queue)
unfolding pending
write_complete-stream files answers c h =
    let d = (write files answers c).1 in
    let e = write-Emptied files answers c h in
    (
      e,
      sym (append-nil d.wire)
          ∙ ap (λ q. d.wire ++ pending files q) (sym e)
          ∙ write-stream files answers c,
    )
