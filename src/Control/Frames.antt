-- ===== src/Control/Frames.antt =====
-- seatd/control.c: the seat functions behind the requests, and the abstract seat.
use dde_seatd.Prelude.{
  ℕ, ◌≡◌, refl, ◌∙◌, List, [], ◌∷◌, ◌++◌, Option, Bool, true, false, ◌||◌, not, if◌then◌else◌,
  if_ind, Option_ind, Status_ind, ℤ, pos, eqb_ℤ, minus_one, drop, Status, ok, fail, is_some, is_pos,
}
use dde_seatd.Kernel.{Bytes, esrch, enoent, ebusy}
use dde_seatd.Connection.{connection_get, bytes_of_int}
use dde_seatd.Daemon.{refuse, Ptr, Daemon, M, on_sys, on_connection, header_bytes, put_parts}
use dde_seatd.Events.{bytes_of_i32}
use dde_seatd.Seat.Vt.{seat_find_group_vt, seat_update_vt}
use dde_seatd.Seat.Switching.{seat_get_active_vt, seat_switch_vt}
use dde_seatd.Seat.GroupVts.{
  find_free_vt, new_group_vt, add_group_vt, seat_create_group_vt, seat_destroy_group_vt,
  seat_find_available_vt,
}
use dde_seatd.Client.Handlers.{seat0, server_has_seat}
use dde_seatd.Client.Dispatch.{i32_of_bytes, with_message}
use dde_seatd.Protocol.{view}
use dde_seatd.Refine.Frames.{
  view-put_parts, view-control_client_flush, view-control_send_message, view-seat_update_vt,
}
use dde_seatd.Refine.Switching.{view-start_vt_switch}
use dde_seatd.Control.{
  control_send_error, control_send_errno, control_send_ok, control_send_group_vt_created,
  control_send_vt_state, control_find_owner_client, create_group_vt, destroy_group_vt, switch_vt,
  name_field, with_seat, send_vt_or_error,
}

-- A handler that leaves the abstract seat as it is.
abbrev pub Still : {A : Type 0} → M A → Type 0
Still m = (d : Daemon) → view (m d).1 ≡ view d

pub send_error-Still : (p : Ptr) (e : ℕ) → Still (control_send_error p e)
unfolding control_send_error
send_error-Still p e d = view-control_send_message p 255 (bytes_of_int e) d

send_ok-Still : (p : Ptr) → Still (control_send_ok p)
unfolding control_send_ok
send_ok-Still p d =
    Status_ind (λ (r : Status × Daemon). view r.1 ≡ view d) (put_parts p parts d).0
      (λ o. view-control_client_flush p (put_parts p parts d).1 ∙ view-put_parts p parts d)
      (λ f. view-put_parts p parts d)
  where
    parts : List Bytes
    parts = header_bytes 102 0 ∷ []

send_vt_state-Still : (p : Ptr) (opcode : ℕ) (vt : ℤ) → Still (control_send_vt_state p opcode vt)
unfolding control_send_vt_state
send_vt_state-Still p opcode vt d = view-control_send_message p opcode (bytes_of_i32 vt) d

created-Still : (p : Ptr) (pid : ℕ) (vt : ℤ) → Still (control_send_group_vt_created p pid vt)
unfolding control_send_group_vt_created
created-Still p pid vt d = view-control_send_message p 100 (bytes_of_int pid ++ bytes_of_i32 vt) d

pub with_message-Still :
    (p : Ptr) (count : ℕ) (failure : Status) (k : Bytes → M Status)
    → ((bytes : Bytes) → Still (k bytes))
    → Still (with_message p count failure k)
with_message-Still p count failure k h d =
    Option_ind (λ (r : Status × Daemon). view r.1 ≡ view d)
      (connection_get count (d.connection p) d.sys).0.0 (λ n. refl)
      λ bytes n. h bytes (on_connection p (connection_get count) d).1

add_group_vt-Still :
    (p : Ptr) (vt : ℤ) (user session : Bytes) → Still (add_group_vt p vt user session)
unfolding add_group_vt
add_group_vt-Still p vt user session d =
    if_ind (λ (r : Option ℤ × Daemon). view r.1 ≡ view d)
      (eqb_ℤ vt (d.client p).session || is_some (seat_find_group_vt d.seat vt)) (λ e. refl)
      λ e.
        Status_ind (λ (r : Option ℤ × Daemon). view r.1 ≡ view d) (new_group_vt vt d.sys).0
          (λ o. refl) (λ f. refl)

seat_create_group_vt-Still :
    (p : Ptr) (vt : ℤ) (user session : Bytes) → Still (seat_create_group_vt p vt user session)
unfolding seat_create_group_vt
seat_create_group_vt-Still p vt user session d =
    if_ind Outcome (not d.seat.vt_bound) (λ e. refl)
      λ e₁.
        if_ind Outcome (not (d.client p).in_seat) (λ e. refl)
          λ e₂.
            if_ind Outcome (is_pos vt) (λ e. add_group_vt-Still p vt user session d)
              λ e₃.
                Option_ind Outcome (find_free_vt false d.sys).0 (λ n. refl)
                  λ free n.
                    add_group_vt-Still p (pos free) user session (on_sys (find_free_vt false) d).1
  where
    Outcome : Option ℤ × Daemon → Type 0
    Outcome r = view r.1 ≡ view d

pub create_group_vt-Still : (p : Ptr) (request : Bytes) → Still (create_group_vt p request)
unfolding create_group_vt
create_group_vt-Still p request d =
    Option_ind Outcome (control_find_owner_client d (i32_of_bytes request))
      (λ n. send_error-Still p esrch d)
      λ owner n.
        if_ind Outcome (not (d.client owner).in_seat) (λ e. send_error-Still p esrch d)
          λ e.
            Option_ind Outcome (made owner).0
              (λ m. send_error-Still p (made owner).1.sys.errno (made owner).1 ∙ same owner)
              λ vt m. created-Still p (d.client owner).pid vt (made owner).1 ∙ same owner
  where
    made : Ptr → Option ℤ × Daemon
    made owner =
        seat_create_group_vt owner (i32_of_bytes (drop 4 request)) (name_field (drop 8 request))
          (name_field (drop 72 request)) d

    same : (owner : Ptr) → view (made owner).1 ≡ view d
    same owner =
        seat_create_group_vt-Still owner (i32_of_bytes (drop 4 request))
          (name_field (drop 8 request)) (name_field (drop 72 request)) d

    Outcome : Status × Daemon → Type 0
    Outcome r = view r.1 ≡ view d

pub with_seat-Still : (p : Ptr) (k : M Status) → Still k → Still (with_seat p k)
with_seat-Still p k h d =
    if_ind (λ (r : Status × Daemon). view r.1 ≡ view d) (server_has_seat d seat0) (λ s. h d)
      (λ s. send_error-Still p enoent d)

seat_destroy_group_vt-Still : (vt : ℤ) → Still (seat_destroy_group_vt vt)
unfolding seat_destroy_group_vt
seat_destroy_group_vt-Still vt d =
    Option_ind (λ (r : Status × Daemon). view r.1 ≡ view d) (seat_find_group_vt d.seat vt)
      (λ n. refl)
      λ g n. if_ind (λ (x : Daemon). view x ≡ view d) d.seat.vt_bound (λ b. refl) (λ b. refl)

pub destroy_group_vt-Still : (p : Ptr) (vt : ℤ) → Still (destroy_group_vt p vt)
unfolding destroy_group_vt
destroy_group_vt-Still p vt d =
    Status_ind (λ (r : Status × Daemon). view r.1 ≡ view d) gone.0 (λ o. same)
      (λ f. send_error-Still p gone.1.sys.errno gone.1 ∙ same)
  where
    gone : Status × Daemon
    gone = seat_destroy_group_vt vt d

    same : view gone.1 ≡ view d
    same = seat_destroy_group_vt-Still vt d

pub send_vt_or_error-Still : (p : Ptr) (opcode : ℕ) (vt : ℤ) → Still (send_vt_or_error p opcode vt)
send_vt_or_error-Still p opcode vt d = by_test (eqb_ℤ vt minus_one)
  where
    by_test :
        (b : Bool)
        → view ((if b then control_send_errno p else control_send_vt_state p opcode vt) d).1
          ≡ view d
    by_test true = send_error-Still p d.sys.errno d
    by_test false = send_vt_state-Still p opcode vt d

pub seat_get_active_vt-Still : Still seat_get_active_vt
unfolding seat_get_active_vt
seat_get_active_vt-Still d =
    if_ind Outcome d.seat.vt_bound
      (λ b.
        Status_ind Outcome (seat_update_vt d).0 (λ o. view-seat_update_vt d)
          (λ f. view-seat_update_vt d))
      (λ u. refl)
  where
    Outcome : ℤ × Daemon → Type 0
    Outcome r = view r.1 ≡ view d

pub seat_find_available_vt-Still : Still seat_find_available_vt
unfolding seat_find_available_vt
seat_find_available_vt-Still d =
    if_ind (λ (r : ℤ × Daemon). view r.1 ≡ view d) d.seat.vt_bound (λ b. refl) (λ u. refl)

seat_switch_vt-Still : (vt : ℤ) → Still (seat_switch_vt vt)
unfolding seat_switch_vt
seat_switch_vt-Still vt d =
    if_ind Outcome (not d.seat.vt_bound) (λ e. refl)
      λ e₁.
        if_ind Outcome (not (is_pos vt)) (λ e. refl)
          λ e₂.
            Status_ind Outcome (seat_update_vt d).0
              (λ o.
                if_ind Outcome (eqb_ℤ d₁.seat.cur_vt vt) {x = (ok, d₁)} (λ e. same)
                  λ e₃.
                    if_ind Outcome (is_pos d₁.seat.pending_vt_switch) {x = refuse fail ebusy d₁}
                      (λ e. same) (λ e. view-start_vt_switch vt d₁ ∙ same))
              (λ f. same)
  where
    d₁ : Daemon
    d₁ = (seat_update_vt d).1

    same : view d₁ ≡ view d
    same = view-seat_update_vt d

    Outcome : Status × Daemon → Type 0
    Outcome r = view r.1 ≡ view d

pub switch_vt-Still : (p : Ptr) (vt : ℤ) → Still (switch_vt p vt)
unfolding switch_vt
switch_vt-Still p vt d =
    Status_ind (λ (r : Status × Daemon). view r.1 ≡ view d) switched.0
      (λ o. send_ok-Still p switched.1 ∙ seat_switch_vt-Still vt d)
      (λ f. send_error-Still p switched.1.sys.errno switched.1 ∙ seat_switch_vt-Still vt d)
  where
    switched : Status × Daemon
    switched = seat_switch_vt vt d
