-- ===== src/Control/Requests.antt =====
-- seatd/control.c: the requests of a control client, and the abstract seat.
use dde_seatd.Prelude.{ℕ, ◌∙◌, Bool, true, false, ◌==◌, if◌then◌else◌, ℤ, Status, ok}
use dde_seatd.Kernel.{eproto}
use dde_seatd.Daemon.{Ptr, M}
use dde_seatd.Seat.Switching.{seat_get_active_vt}
use dde_seatd.Seat.GroupVts.{seat_find_available_vt}
use dde_seatd.Client.Dispatch.{i32_of_bytes}
use dde_seatd.Control.{
  control_send_error, create_group_vt, destroy_group_vt, switch_vt, handle_create_group_vt,
  handle_destroy_group_vt, handle_get_active_vt, handle_find_free_vt, handle_switch_vt,
  control_client_handle_opcode, with_seat, send_vt_or_error,
}
use dde_seatd.Control.Frames.{
  Still, send_error-Still, with_message-Still, create_group_vt-Still, with_seat-Still,
  destroy_group_vt-Still, send_vt_or_error-Still, seat_get_active_vt-Still,
  seat_find_available_vt-Still, switch_vt-Still,
}

handle_create_group_vt-Still : (p : Ptr) → Still (handle_create_group_vt p)
unfolding handle_create_group_vt
handle_create_group_vt-Still p =
    with_message-Still p 136 ok (create_group_vt p) (create_group_vt-Still p)

handle_destroy_group_vt-Still : (p : Ptr) → Still (handle_destroy_group_vt p)
unfolding handle_destroy_group_vt
handle_destroy_group_vt-Still p =
    with_message-Still p 4 ok (λ request. with_seat p (destroy_group_vt p (i32_of_bytes request)))
      λ request.
        with_seat-Still p (destroy_group_vt p (i32_of_bytes request))
          (destroy_group_vt-Still p (i32_of_bytes request))

handle_switch_vt-Still : (p : Ptr) → Still (handle_switch_vt p)
unfolding handle_switch_vt
handle_switch_vt-Still p =
    with_message-Still p 4 ok (λ request. with_seat p (switch_vt p (i32_of_bytes request)))
      λ request.
        with_seat-Still p (switch_vt p (i32_of_bytes request))
          (switch_vt-Still p (i32_of_bytes request))

-- An answer with a VT that was asked of the seat.
abbrev answered : Ptr → ℕ → M ℤ → M Status
answered p opcode m d = send_vt_or_error p opcode (m d).0 (m d).1

answered-Still : (p : Ptr) (opcode : ℕ) (m : M ℤ) → Still m → Still (answered p opcode m)
answered-Still p opcode m h d = send_vt_or_error-Still p opcode (m d).0 (m d).1 ∙ h d

handle_get_active_vt-Still : (p : Ptr) → Still (handle_get_active_vt p)
unfolding handle_get_active_vt
handle_get_active_vt-Still p =
    with_seat-Still p (answered p 103 seat_get_active_vt)
      (answered-Still p 103 seat_get_active_vt seat_get_active_vt-Still)

handle_find_free_vt-Still : (p : Ptr) → Still (handle_find_free_vt p)
unfolding handle_find_free_vt
handle_find_free_vt-Still p =
    with_seat-Still p (answered p 104 seat_find_available_vt)
      (answered-Still p 104 seat_find_available_vt seat_find_available_vt-Still)

if-Still : (b : Bool) (f g : M Status) → Still f → Still g → Still (if b then f else g)
if-Still true f g h k = h
if-Still false f g h k = k

abbrev sized : Ptr → ℕ → ℕ → M Status → M Status
sized p size n k = if size == n then k else control_send_error p eproto

sized-Still : (p : Ptr) (size n : ℕ) (k : M Status) → Still k → Still (sized p size n k)
sized-Still p size n k h =
    if-Still (size == n) k (control_send_error p eproto) h (send_error-Still p eproto)

pub control_client_handle_opcode-Still :
    (p : Ptr) (opcode size : ℕ) → Still (control_client_handle_opcode p opcode size)
unfolding control_client_handle_opcode
control_client_handle_opcode-Still p opcode size =
    if-Still (opcode == 1) _ _
      (sized-Still p size 136 (handle_create_group_vt p) (handle_create_group_vt-Still p))
      (if-Still (opcode == 2) _ _
        (sized-Still p size 4 (handle_destroy_group_vt p) (handle_destroy_group_vt-Still p))
        (if-Still (opcode == 3) _ _
          (sized-Still p size 0 (handle_get_active_vt p) (handle_get_active_vt-Still p))
          (if-Still (opcode == 4) _ _
            (sized-Still p size 0 (handle_find_free_vt p) (handle_find_free_vt-Still p))
            (if-Still (opcode == 5) _ _
              (sized-Still p size 4 (handle_switch_vt p) (handle_switch_vt-Still p))
              (send_error-Still p eproto)))))
