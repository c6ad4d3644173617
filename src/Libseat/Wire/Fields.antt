-- ===== src/Libseat/Wire/Fields.antt =====
-- seatd/client.c: the fields of a request, from its bytes to its handler.
use mathlib.Core.List.{append_assoc, append-nil}
use dde_seatd.Prelude.{
  ℕ, ◌+◌, ◌-◌, ◌^◌, ◌<◌, ◌≡◌, refl, sym, ap, ap₂, ◌∙◌, [], ◌∷◌, ◌++◌, Option, none, some, ltb, ◌==◌,
  ◌||◌, not, if◌then◌else◌, if_ind, take, length, length-append, arith, Status, fail, ℤ,
}
use dde_seatd.Kernel.{Bytes}
use dde_seatd.Connection.{Connection}
use dde_seatd.Connection.Messages.{i32_round_trip, IsI32}
use dde_seatd.Daemon.{Ptr, Daemon, M, bytes_of_u16}
use dde_seatd.Events.{bytes_of_i32}
use dde_seatd.Client.Handlers.{handle_open_device, handle_close_device, handle_switch_session}
use dde_seatd.Client.Dispatch.{
  u16_of_bytes, i32_of_bytes, strnlen, max_path_len, read_path, read_open_device, with_message,
  read_int, opcode_of, dispatch,
}
use dde_seatd.Libseat.Inbox.{Next, take-append}
use dde_seatd.Libseat.Wire.{
  taken, on_connection-next, taken-Next, Request, open_device, joined, handler_of, NoNul, Fits,
  taken_all, code_of, size_of, body_of, length-bytes_of_i32, strnlen-append_nul, open_seat,
  close_seat, disable_seat, ping, open_device, close_device, switch_session,
}

-- A message of a fixed size is there.
with_message-next :
    {A : Type 0} (p : Ptr) (xs rest : Bytes) (n : ℕ) (failure : A) (k : Bytes → M A) (d : Daemon)
    → Next xs rest (d.connection p)
    → length xs ≡ n
    → with_message p n failure k d ≡ k xs (taken p n d)
with_message-next {A} p xs rest n failure k d h l =
    ap
      (λ (r : Option Bytes × Daemon). elim r.0 as (λ y. A × Daemon) [
        | none ↦ (failure, r.1)
        | some bytes ↦ k bytes r.1
      ])
      (on_connection-next p xs rest n d h l)

read_int-next :
    (p : Ptr) (n : ℤ) (rest : Bytes) (k : ℤ → M Status) (d : Daemon)
    → IsI32 n
    → Next (bytes_of_i32 n) rest (d.connection p)
    → read_int p 4 k d ≡ k n (taken p 4 d)
read_int-next p n rest k d f h =
    with_message-next p (bytes_of_i32 n) rest 4 fail (λ msg. k (i32_of_bytes msg)) d h
      (length-bytes_of_i32 n)
    ∙ ap (λ z. k z (taken p 4 d)) (i32_round_trip n f)

length-bytes_of_u16 : (n : ℕ) → length (bytes_of_u16 n) ≡ 2
unfolding bytes_of_u16
length-bytes_of_u16 n = refl

u16_round_trip : (n : ℕ) → n < 2 ^ 16 → u16_of_bytes (bytes_of_u16 n) ≡ n
unfolding bytes_of_u16 u16_of_bytes
u16_round_trip n h = omega arith

read_path-next :
    (p : Ptr) (path rest : Bytes) (d : Daemon)
    → NoNul path
    → Next (path ++ (0 ∷ [])) rest (d.connection p)
    → read_path p (length path + 1) d
      ≡ handle_open_device p path (taken p (length (path ++ (0 ∷ []))) d)
unfolding read_path
read_path-next p path rest d f h =
    with_message-next p (path ++ (0 ∷ [])) rest (length path + 1) fail use_path d h
      (length-append path (0 ∷ []))
    ∙ if_ind Goal (length path + 1 == 0 || not (strnlen (path ++ (0 ∷ [])) == length path + 1 - 1))
        (λ e. absurd (ground (arith, strnlen-append_nul path f)))
        (λ e.
          ap₂ (handle_open_device p)
            (ap (λ n. take n (path ++ (0 ∷ []))) {x = length path + 1 - 1} {y = length path}
                (omega arith)
              ∙ take-append path (0 ∷ []))
            (ap (λ n. taken p n d) (sym (length-append path (0 ∷ [])))))
  where
    use_path : Bytes → M Status
    use_path bytes =
        if length path + 1 == 0 || not (strnlen bytes == length path + 1 - 1)
        then (λ x. (fail, x))
        else handle_open_device p (take (length path + 1 - 1) bytes)

    Goal : M Status → Type 0
    Goal m =
        m (taken p (length path + 1) d)
        ≡ handle_open_device p path (taken p (length (path ++ (0 ∷ []))) d)

read_open_device-next :
    (p : Ptr) (path rest : Bytes) (d : Daemon)
    → Fits (open_device path)
    → Next (joined (body_of (open_device path))) rest (d.connection p)
    → read_open_device p (2 + (length path + 1)) d
      ≡ handle_open_device p path (taken_all p (body_of (open_device path)) d)
unfolding read_open_device
read_open_device-next p path rest d f h =
    if_ind Goal (ltb size 2) (λ e. absurd (ground arith))
      λ e.
        with_message-next p (bytes_of_u16 n) (path ++ (0 ∷ []) ++ rest) 2 fail use_length d first
          (length-bytes_of_u16 n)
        ∙ if_ind (λ (m : M Status). Goal (m there))
            (not (u16_of_bytes (bytes_of_u16 n) == size - 2)) (λ u. absurd (ground (arith, value)))
            λ u.
              if_ind (λ (m : M Status). Goal (m there))
                (ltb max_path_len (u16_of_bytes (bytes_of_u16 n)))
                (λ t. absurd (ground (arith, value, f.1)))
                λ t.
                  ap (λ k. read_path p k there) value
                  ∙ read_path-next p path rest there f.0 second
                  ∙ ap
                      (λ k.
                        handle_open_device p path
                          (taken p (length (path ++ (0 ∷ []))) (taken p k d)))
                      (sym (length-bytes_of_u16 n))
  where
    n : ℕ
    n = length path + 1

    size : ℕ
    size = 2 + n

    use_length : Bytes → M Status
    use_length bytes =
        if not (u16_of_bytes bytes == size - 2)
        then (λ x. (fail, x))
        else if ltb max_path_len (u16_of_bytes bytes)
        then (λ x. (fail, x))
        else read_path p (u16_of_bytes bytes)

    there : Daemon
    there = taken p 2 d

    Goal : Status × Daemon → Type 0
    Goal r = r ≡ handle_open_device p path (taken_all p (body_of (open_device path)) d)

    value : u16_of_bytes (bytes_of_u16 n) ≡ n
    value = u16_round_trip n (omega (arith, f.1))

    first : Next (bytes_of_u16 n) (path ++ (0 ∷ []) ++ rest) (d.connection p)
    first = record {
      valid = h.valid;
      next =
          h.next
          ∙ append_assoc (bytes_of_u16 n) (path ++ (0 ∷ []) ++ []) rest
          ∙ ap (λ xs. bytes_of_u16 n ++ (xs ++ rest)) (append-nil (path ++ (0 ∷ [])));
    }

    second : Next (path ++ (0 ∷ [])) rest (there.connection p)
    second =
        taken-Next p (bytes_of_u16 n) (path ++ (0 ∷ []) ++ rest) 2 d first (length-bytes_of_u16 n) _
          _ refl

-- A body of one part.
only_part :
    {part rest : Bytes} {c : Connection} → Next (joined (part ∷ [])) rest c → Next part rest c
only_part {part = part} {rest = rest} h = record {
  valid = h.valid;
  next = h.next ∙ ap (λ xs. xs ++ rest) (append-nil part);
}

pub dispatch-next :
    (q : Request) (p : Ptr) (rest : Bytes) (d : Daemon)
    → Fits q
    → Next (joined (body_of q)) rest (d.connection p)
    → dispatch p (size_of q) (opcode_of (code_of q)) d ≡ handler_of q p (taken_all p (body_of q) d)
unfolding dispatch opcode_of
dispatch-next open_seat p rest d f h = refl
dispatch-next close_seat p rest d f h = refl
dispatch-next (open_device path) p rest d f h = read_open_device-next p path rest d f h
dispatch-next (close_device n) p rest d f h =
    read_int-next p n rest (handle_close_device p) d f (only_part h)
    ∙ ap (λ k. handle_close_device p n (taken p k d)) (sym (length-bytes_of_i32 n))
dispatch-next disable_seat p rest d f h = refl
dispatch-next (switch_session n) p rest d f h =
    read_int-next p n rest (handle_switch_session p) d f (only_part h)
    ∙ ap (λ k. handle_switch_session p n (taken p k d)) (sym (length-bytes_of_i32 n))
dispatch-next ping p rest d f h = refl
