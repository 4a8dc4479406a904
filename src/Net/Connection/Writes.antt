-- ===== src/Net/Connection/Writes.antt =====
-- Connection.cpp: the rule of the loop of `write`.
use aorta.Prelude.{ℕ, suc, ◌≡◌, refl, List, [], ◌∷◌, Bytes, take, null, ◌⊎◌, inl, inr, if_intro}
use aorta.Net.Connection.Defs.{OutputBuffer, Connection}
use aorta.Net.Connection.Output.{
  pop_sent, Transfer, room, blocked, interrupted, failed, offered, transfer, WriteResult, write,
}

pub List-cases {ℓ} :
    {A : Type ℓ} (xs : List A) → (xs ≡ []) ⊎ ((x : A) × (ys : List A) × (xs ≡ x ∷ ys))
List-cases [] = inl refl
List-cases (x ∷ xs) = inr (x, xs, refl)

-- What a pop and a transfer keep, the loop keeps.
module _ (P : Connection → Type 0) (files : ℕ → Bytes)
    (pops : (c : Connection) → P c → P (pop_sent c.output_queue c))
    (moves : (n : ℕ) (output : OutputBuffer) (rest : List OutputBuffer) (c : Connection)
      → c.output_queue ≡ output ∷ rest
      → P c
      → P (transfer (take (suc n) (offered files output)) output rest c)) where
  pub write_keeps : (answers : List Transfer) (c : Connection) → P c → P (write files answers c).1
  unfolding write
  write_keeps [] c h =
      if_intro (λ (r : WriteResult × Connection). P r.1)
        (null (pop_sent c.output_queue c).output_queue) (λ t. pops c h) (λ t. pops c h)
  write_keeps (room n ∷ answers) c h = elim (List-cases (pop_sent c.output_queue c).output_queue) [
    | inl e ↦ rw (e, write) (pops c h)
    | inr (output, rest, e) ↦
        rw (e, write) (write_keeps answers _ (moves n output rest _ e (pops c h)))
  ]
  write_keeps (blocked ∷ answers) c h = elim (List-cases (pop_sent c.output_queue c).output_queue) [
    | inl e ↦ rw (e, write) (pops c h)
    | inr (output, rest, e) ↦ rw (e, write) (pops c h)
  ]
  write_keeps (interrupted ∷ answers) c h =
      elim (List-cases (pop_sent c.output_queue c).output_queue) [
        | inl e ↦ rw (e, write) (pops c h)
        | inr (output, rest, e) ↦ rw (e, write) (write_keeps answers _ (pops c h))
      ]
  write_keeps (failed ∷ answers) c h = elim (List-cases (pop_sent c.output_queue c).output_queue) [
    | inl e ↦ rw (e, write) (pops c h)
    | inr (output, rest, e) ↦ rw (e, write) (pops c h)
  ]
