-- ===== src/Refine/Frames.antt =====
-- The functions that leave the abstract seat as it is: they touch devices, sockets, VTs and the kernel.
use dde_seatd.Prelude.{
  Status-cases, ℕ, ◌≡◌, refl, ◌∙◌, fun_ext, inl, inr, List, [], ◌∷◌, ◌++◌, Bool, arith, leb, length,
  Bool-cases, Option-cases, ℤ, St, Status, ok, fail,
}
use dde_seatd.Kernel.{syscall, realpath, Bytes, Sys}
use dde_seatd.Connection.{connection_put, connection_flush}
use dde_seatd.Daemon.{
  ClientState, header_bytes, assert, is_ptr, Ptr, DeviceType, Device, Client, Daemon, update,
  set_client, set_sys, on_connection, put_parts,
}
use dde_seatd.Events.{
  after_send, bytes_of_i32, client_send_event, client_send_disable_seat, client_send_enable_seat,
  control_client_destroy, control_client_flush, control_send_message, control_send_vt_change,
  broadcast_to, control_broadcast_vt_change,
}
use dde_seatd.Daemon.{event_source_fd_update}
use dde_seatd.Seat.Vt.{seat_update_vt}
use dde_seatd.Seat.Devices.{
  each_device, seat_activate_device, seat_deactivate_device, close_first, drop_master,
  restore_master, update_devices, seat_close_device, seat_find_device, open_new, open_sanitized,
  seat_open_device, device_type, reuse, is_active, max_seat_devices, seat_drop_client_drm_master,
  seat_restore_client_drm_master, open_entry,
}
use dde_seatd.Seat.Clients.{
  close_every, close_fuel, activate_devices, deactivate_devices, close_devices, drop_owned_vts,
}
use dde_seatd.Protocol.{view}

-- A client with other devices is the same client to the seat.
view-set_devices :
    (p : Ptr) (devs : List Device) (d : Daemon)
    → view (set_client p (record (d.client p) { devices = devs }) d) ≡ view d
view-set_devices p devs d = λ i. record {
  clients = d.seat.clients;
  idle = d.idle_clients;
  active = d.seat.active_client;
  next = d.seat.next_client;
  state = states i;
  in_seat = members i;
  session = sessions i;
}
  where
    changed : Ptr → Client
    changed = update d.client p (record (d.client p) { devices = devs })

    states : ◌≡◌ {A = Ptr → ClientState} (λ q. (changed q).state) (λ q. (d.client q).state)
    states = fun_ext λ q. ground arith

    members : ◌≡◌ {A = Ptr → Bool} (λ q. (changed q).in_seat) (λ q. (d.client q).in_seat)
    members = fun_ext λ q. ground arith

    sessions : ◌≡◌ {A = Ptr → ℤ} (λ q. (changed q).session) (λ q. (d.client q).session)
    sessions = fun_ext λ q. ground arith

view-update_devices :
    (p : Ptr) (f : List Device → St Sys (List Device)) (d : Daemon)
    → view (update_devices p f d) ≡ view d
unfolding update_devices
view-update_devices p f d = view-set_devices p (f (d.client p).devices d.sys).0 d

pub view-put_parts :
    (p : Ptr) (parts : List Bytes) (d : Daemon) → view (put_parts p parts d).1 ≡ view d
unfolding put_parts
view-put_parts p [] d = refl
view-put_parts p (part ∷ parts) d =
    ground (arith, view-put_parts p parts (on_connection p (connection_put part) d).1)

view-client_send_event :
    (opcode : ℕ) (p : Ptr) (d : Daemon) → view (client_send_event opcode p d).1 ≡ view d
unfolding client_send_event
view-client_send_event opcode p d =
    elim (Status-cases (put_parts p (header_bytes opcode 0 ∷ []) d).0) [
      | inr e ↦ rw (e, client_send_event) (view-put_parts p (header_bytes opcode 0 ∷ []) d)
      | inl e ↦
          elim (Option-cases
            (on_connection p connection_flush (put_parts p (header_bytes opcode 0 ∷ []) d).1).0) [
              | inl g ↦
                  rw (e, client_send_event)
                    (rw (g, client_send_event) (view-put_parts p (header_bytes opcode 0 ∷ []) d))
              | inr (n, g) ↦
                  rw (e, client_send_event)
                    (rw (g, client_send_event) (view-put_parts p (header_bytes opcode 0 ∷ []) d))
            ]
    ]

pub view-seat_update_vt : (d : Daemon) → view (seat_update_vt d).1 ≡ view d
unfolding seat_update_vt
view-seat_update_vt d = ground arith

pub view-client_send_disable_seat :
    (p : Ptr) (d : Daemon) → view (client_send_disable_seat p d).1 ≡ view d
unfolding client_send_disable_seat
view-client_send_disable_seat p d = view-client_send_event _ p d

pub view-client_send_enable_seat :
    (p : Ptr) (d : Daemon) → view (client_send_enable_seat p d).1 ≡ view d
unfolding client_send_enable_seat
view-client_send_enable_seat p d = view-client_send_event _ p d

pub view-activate_devices : (p : Ptr) (d : Daemon) → view (activate_devices p d) ≡ view d
unfolding activate_devices
view-activate_devices p d = view-update_devices p (each_device seat_activate_device) d

pub view-deactivate_devices : (p : Ptr) (d : Daemon) → view (deactivate_devices p d) ≡ view d
unfolding deactivate_devices
view-deactivate_devices p d = view-update_devices p (each_device seat_deactivate_device) d

pub view-close_devices : (p : Ptr) (d : Daemon) → view (close_devices p d) ≡ view d
unfolding close_devices
view-close_devices p d = view-update_devices p (λ devs. close_every (close_fuel devs) devs) d

pub view-seat_close_device :
    (p : Ptr) (id : ℕ) (d : Daemon) → view (seat_close_device p id d) ≡ view d
unfolding seat_close_device
view-seat_close_device p id d = view-update_devices p (close_first id) d

pub view-seat_drop_client_drm_master :
    (p : Ptr) (d : Daemon) → view (seat_drop_client_drm_master p d) ≡ view d
unfolding seat_drop_client_drm_master
view-seat_drop_client_drm_master p d = view-update_devices p (each_device drop_master) d

pub view-seat_restore_client_drm_master :
    (p : Ptr) (d : Daemon) → view (seat_restore_client_drm_master p d) ≡ view d
unfolding seat_restore_client_drm_master
view-seat_restore_client_drm_master p d = view-update_devices p (each_device restore_master) d

pub view-drop_owned_vts : (p : Ptr) (d : Daemon) → view (drop_owned_vts p d) ≡ view d
unfolding drop_owned_vts
view-drop_owned_vts p d = refl

pub view-seat_find_device :
    (p : Ptr) (id : ℤ) (d : Daemon) → view (seat_find_device p id d).1 ≡ view d
unfolding seat_find_device
view-seat_find_device p id d = ground arith

view-open_new :
    (p : Ptr) (type : DeviceType) (path : Bytes) (d : Daemon)
    → view (open_new p type path d).1 ≡ view d
unfolding open_new
view-open_new p type path d =
    elim (Bool-cases (leb max_seat_devices (length (d.client p).devices))) [
      | inl e ↦ rw (e, open_new) refl
      | inr e ↦ elim (Option-cases (open_entry type path d.sys).0) [
        | inl n ↦ rw (e, open_new) (rw (n, open_new) refl)
        | inr (fd, n) ↦
            rw (e, open_new)
              (rw (n, open_new) (view-set_devices p _ (set_sys (open_entry type path d.sys).1 d)))
      ]
    ]

view-open_sanitized :
    (p : Ptr) (path : Bytes) (d : Daemon) → view (open_sanitized p path d).1 ≡ view d
unfolding open_sanitized
view-open_sanitized p path d = elim (Option-cases (device_type path)) [
  | inl e ↦ rw (e, open_sanitized) refl
  | inr (type, e) ↦ elim (Option-cases (reuse path (d.client p).devices)) [
    | inl n ↦ rw (e, open_sanitized) (rw (n, open_sanitized) (view-open_new p type path d))
    | inr (r, n) ↦ rw (e, open_sanitized) (rw (n, open_sanitized) (view-set_devices p r.1 d))
  ]
]

pub view-seat_open_device :
    (p : Ptr) (path : Bytes) (d : Daemon) → view (seat_open_device p path d).1 ≡ view d
unfolding seat_open_device
view-seat_open_device p path d = elim (Bool-cases (is_active (d.client p).state)) [
  | inr e ↦ rw (e, seat_open_device) refl
  | inl e ↦
      elim (Option-cases
        (syscall (realpath path) (assert (is_ptr d.seat.active_client p) d).sys).0) [
          | inl n ↦ rw (e, seat_open_device) (rw (n, seat_open_device) refl)
          | inr (r, n) ↦
              rw (e, seat_open_device) (rw (n, seat_open_device) (view-open_sanitized p _ _))
        ]
]

pub view-control_client_flush : (p : Ptr) (d : Daemon) → view (control_client_flush p d).1 ≡ view d
unfolding control_client_flush event_source_fd_update
view-control_client_flush p d = ground arith

pub view-control_send_message :
    (p : Ptr) (opcode : ℕ) (payload : Bytes) (d : Daemon)
    → view (control_send_message p opcode payload d).1 ≡ view d
unfolding control_send_message
view-control_send_message p opcode payload d =
    elim (Status-cases (put_parts p (header_bytes opcode (length payload) ∷ payload ∷ []) d).0) [
      | inr e ↦ rw (e, control_send_message) same
      | inl e ↦ rw (e, control_send_message) (view-control_client_flush p sent ∙ same)
    ]
  where
    sent : Daemon
    sent = (put_parts p (header_bytes opcode (length payload) ∷ payload ∷ []) d).1

    same : view sent ≡ view d
    same = view-put_parts p (header_bytes opcode (length payload) ∷ payload ∷ []) d

view-after_send : (p : Ptr) (r : Status) (d : Daemon) → view (after_send p (r, d)) ≡ view d
unfolding control_client_destroy
view-after_send p ok d = refl
view-after_send p fail d = refl

view-broadcast_to :
    (ps : List Ptr) (old_vt new_vt : ℤ) (d : Daemon)
    → view (broadcast_to ps old_vt new_vt d) ≡ view d
unfolding broadcast_to control_send_vt_change
view-broadcast_to [] old_vt new_vt d = refl
view-broadcast_to (p ∷ ps) old_vt new_vt d =
    view-broadcast_to ps old_vt new_vt (after_send p (control_send_vt_change p old_vt new_vt d))
    ∙ view-after_send p (control_send_vt_change p old_vt new_vt d).0
        (control_send_vt_change p old_vt new_vt d).1
    ∙ view-control_send_message p 101 (bytes_of_i32 old_vt ++ bytes_of_i32 new_vt) d

pub view-control_broadcast_vt_change :
    (old_vt new_vt : ℤ) (d : Daemon) → view (control_broadcast_vt_change old_vt new_vt d) ≡ view d
unfolding control_broadcast_vt_change
view-control_broadcast_vt_change old_vt new_vt d =
    view-broadcast_to d.control_clients old_vt new_vt d
