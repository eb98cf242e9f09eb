-- ===== src/SelectClient/SendLoop.antt =====
-- The loop of `SelectClient::SendData` ends, and sends the bytes in order.
use select_mode_network.Base.{
  ℕ, zero, suc, ◌+◌, ◌≤◌, ◌<◌, ◌≡◌, refl, ap, sym, subst, ◌∙◌, some, none, ◌++◌, arith,
  append_assoc, append-nil, take, drop, lt→ltb, le→leb, lt→leb, if◌then◌else◌, dec_lt,
}
use select_mode_network.Base.Int.{ℤ, pos_part, leb_ℤ}
use select_mode_network.Base.Arrays.{read_at-add}
use select_mode_network.Buffer.Data.{Bytes}
use select_mode_network.SelectClient.State.{
  Wire, SelectClient, Result, returned, less, send_loop, send_data,
}

-- What `SendData` of the bytes `all` may lead to.
pub data Went (all : Bytes) : Result Wire → Type 0 where
  sent_all : (w : Wire) → w.sent ≡ all → Went all (returned (ℤ.pos 0) w)
  failed : (w : Wire) (lost : Bytes) → w.sent ++ lost ≡ all → Went all (returned (ℤ.negsuc 0) w)

module _ (send : ℕ → ℕ → ℤ) (law : (t len : ℕ) → pos_part (send t len) ≤ len) where
  send_loop-Went :
      (fuel : ℕ) (bytes : Bytes) (offset len : ℕ) (w : Wire)
      → len < fuel
      → len < 65536
      → Went (w.sent ++ take len (drop offset bytes)) (send_loop send fuel bytes offset len w)
  unfolding send_loop
  send_loop-Went zero bytes offset len w h i = absurd (omega arith)
  send_loop-Went (suc fuel) bytes offset len w h i = elim (dec_lt 0 len) [
    | no empty ↦ let e : len ≡ 0 = omega arith in rw e (sent_all w (sym (append-nil w.sent)))
    | yes more ↦ rw (lt→ltb 0 len more) (
        one
          (λ k b.
            send_loop-Went fuel bytes (offset + suc k) (less len (suc k)) (on k) (omega arith)
              (omega arith))
          (send w.clock len) (law w.clock len) more)
  ]
    where
      on : ℕ → Wire
      on k = record { clock = w.clock + 1; sent = w.sent ++ take (suc k) (drop offset bytes) }

      joined :
          (k : ℕ)
          → suc k ≤ len
          → (w.sent ++ take (suc k) (drop offset bytes))
              ++ take (less len (suc k)) (drop (offset + suc k) bytes)
            ≡ w.sent ++ take len (drop offset bytes)
      joined k b =
          append_assoc w.sent (take (suc k) (drop offset bytes)) _
          ∙ ap (λ t. w.sent ++ t)
              (sym (read_at-add bytes offset (suc k) (less len (suc k)))
                ∙ ap (λ n. take n (drop offset bytes)) (omega arith))

      one :
          ((k : ℕ)
            → suc k ≤ len
            → Went
                ((on k).sent ++ take (less len (suc k)) (drop (offset + suc k) bytes))
                (send_loop send fuel bytes (offset + suc k) (less len (suc k)) (on k)))
          → (n : ℤ) → pos_part n ≤ len
          → 0 < len
          → Went (w.sent ++ take len (drop offset bytes)) (
              if leb_ℤ n (ℤ.pos 0)
              then returned (ℤ.negsuc 0) (record w { clock = w.clock + 1 })
              else send_loop send fuel bytes (offset + pos_part n) (less len (pos_part n)) (record {
                clock = w.clock + 1;
                sent = w.sent ++ take (pos_part n) (drop offset bytes);
              }))
      one rest (ℤ.negsuc m) b p =
          rw (le→leb 0 (0 + suc m) (omega arith)) (failed (record w { clock = w.clock + 1 }) _ refl)
      one rest (ℤ.pos zero) b p = failed (record w { clock = w.clock + 1 }) _ refl
      one rest (ℤ.pos (suc k)) b p = rw (lt→leb (suc k + 0) 0 (omega arith)) (
          subst (λ t. Went t (send_loop send fuel bytes (offset + suc k) (less len (suc k)) (on k)))
            (joined k b) (rest k b))

  -- `SendData` on an open client, of fewer than 65536 bytes and with more fuel than bytes, ends: it
  -- returns 0 and the kernel has taken the first `len` bytes at the source, or it returns -1 and the
  -- kernel has taken a front part of them.
  pub send_data-Went :
      (fuel : ℕ) (c : SelectClient) (fd : ℕ) (bytes : Bytes) (len : ℕ) (w : Wire)
      → c.sock ≡ some fd
      → len < fuel
      → len < 65536
      → Went (w.sent ++ take len bytes) (send_data send fuel c bytes len w)
  unfolding send_data
  send_data-Went fuel c fd bytes len w is_open h i =
      subst (λ r. Went (w.sent ++ take len bytes) r)
        (sym (
          ap
            (λ t. elim t [
              | none ↦ returned (ℤ.negsuc 0) w
              | some _ ↦ send_loop send fuel bytes 0 len w
            ])
            is_open))
        (send_loop-Went fuel bytes 0 len w h i)
