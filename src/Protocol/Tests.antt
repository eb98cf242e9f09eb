-- ===== src/Protocol/Tests.antt =====
-- A broadcast of two characters.
use select_mode_network.Base.{
  ℕ, ◌≡◌, refl, some, none, [], ◌∷◌, arith, replicate, length-replicate, take, Option,
}
use select_mode_network.Buffer.Data.{Bytes, ushort_bytes}
use select_mode_network.Protocol.Messages.{Msg, construct, put_head, put_fields, put_field}
use select_mode_network.Protocol.Cutting.{Made, construct-Made}

abbrev text : Bytes
text = 104 ∷ (105 ∷ [])

construct-Made_example :
    Made (Msg.broadcast text) (construct (Msg.broadcast text) (replicate 262 0))
construct-Made_example =
    construct-Made (Msg.broadcast text) (replicate 262 0) (length-replicate {A = ℕ} 262 0)
      (omega arith)

abbrev front_of : Option Bytes → Bytes
front_of o = elim o [ none ↦ [] | some bytes ↦ take 9 bytes ]

broadcast_front :
    front_of (construct (Msg.broadcast text) (replicate 262 9))
    ≡ 9 ∷ (0 ∷ (0 ∷ (0 ∷ (0 ∷ (0 ∷ (104 ∷ (105 ∷ (0 ∷ []))))))))
unfolding construct put_head put_fields put_field ushort_bytes
broadcast_front = refl
