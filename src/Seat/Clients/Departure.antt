-- ===== src/Seat/Clients/Departure.antt =====
-- seatd/seat.c, seatd/client.c: the devices of a client that leaves the seat, and the assertion of
-- `client_destroy`.
use dde_seatd.Prelude.{
  ◌≡◌, refl, sym, ap, subst, ==_iff, ◌∙◌, List, [], ◌∷◌, none, Bool, false, ◌==◌, ◌&&◌, not,
  if◌then◌else◌, if_ind, Option_ind, Status_ind, ℤ, Status, is_some, St,
}
use dde_seatd.Kernel.{Bytes, Sys}
use dde_seatd.Connection.{connection_put, connection_flush}
use dde_seatd.Daemon.{
  Ptr, ClientState, client_active, Device, Client, Daemon, assert, put_parts, on_connection,
  header_bytes, on_sys, effect, is_ptr, set_seat,
}
use dde_seatd.Events.{server_event, client_send_event, client_send_enable_seat}
use dde_seatd.Client.Lifecycle.{client_destroy}
use dde_seatd.Seat.Vt.{close_fd, vt_open, vt_for_client_open}
use dde_seatd.Seat.Devices.{
  each_device, update_devices, seat_activate_device, seat_deactivate_device,
}
use dde_seatd.Seat.Devices.Closing.{close_devices-empties}
use dde_seatd.Seat.Clients.{
  is_new_or_disabled, activate_devices, deactivate_devices, enable_client, seat_open_client,
  candidate, seat_activate, close_devices, drop_owned_vts, unlink, release_vt, seat_remove_client,
  set_state, close_vt, when, is_closed,
}

pub put_parts-client :
    (p : Ptr) (parts : List Bytes) (d : Daemon) → (put_parts p parts d).1.client ≡ d.client
unfolding put_parts
put_parts-client p [] d = refl
put_parts-client p (part ∷ parts) d =
    Status_ind (λ (r : Status × Daemon). r.1.client ≡ d.client)
      (on_connection p (connection_put part) d).0
      (λ e. put_parts-client p parts (on_connection p (connection_put part) d).1) (λ e. refl)

abbrev NoDevices : Ptr → Daemon → Type 0
NoDevices p d = (d.client p).devices ≡ []

module _ (p : Ptr) where
  -- A loop over the devices of any client finds none to add.
  each_device-NoDevices :
      (q : Ptr) (f : Device → St Sys (Status × Device)) (d : Daemon)
      → NoDevices p d
      → NoDevices p (update_devices q (each_device f) d)
  unfolding update_devices each_device
  each_device-NoDevices q f d h =
      if_ind (λ (c : Client). c.devices ≡ []) (q == p)
        (λ e.
          subst (λ x. (each_device f (d.client x).devices d.sys).0 ≡ []) (sym ((==_iff q p).0 e))
            (ap (λ devs. (each_device f devs d.sys).0) h))
        (λ e. h)

  client_send_enable_seat-NoDevices :
      (q : Ptr) (d : Daemon) → NoDevices p d → NoDevices p (client_send_enable_seat q d).1
  unfolding client_send_enable_seat client_send_event
  client_send_enable_seat-NoDevices q d h =
      Status_ind Outcome (put_parts q parts d).0
        (λ o.
          Option_ind Outcome (on_connection q connection_flush (put_parts q parts d).1).0
            (λ n. sent) λ k n. sent)
        (λ f. sent)
    where
      parts : List Bytes
      parts = header_bytes (server_event 6) 0 ∷ []

      Outcome : Status × Daemon → Type 0
      Outcome r = NoDevices p r.1

      sent : NoDevices p (put_parts q parts d).1
      sent = ap (λ (f : Ptr → Client). (f p).devices) (put_parts-client q parts d) ∙ h

  set_state-NoDevices :
      (q : Ptr) (state : ClientState) (d : Daemon)
      → NoDevices p d
      → NoDevices p (set_state q state d)
  set_state-NoDevices q state d h =
      if_ind (λ (c : Client). c.devices ≡ []) (q == p)
        (λ e. subst (λ x. (d.client x).devices ≡ []) (sym ((==_iff q p).0 e)) h) (λ e. h)

  enable_client-NoDevices :
      (q : Ptr) (vt : ℤ) (d : Daemon) → NoDevices p d → NoDevices p (enable_client q vt d).1
  unfolding enable_client activate_devices deactivate_devices
  enable_client-NoDevices q vt d h =
      Status_ind Outcome (client_send_enable_seat q ready).0
        (λ o. set_state-NoDevices q client_active sent after)
        (λ f.
          if_ind (NoDevices p) sent.seat.vt_bound {x = close_vt vt (deactivate_devices q sent)}
            {y = deactivate_devices q sent} (λ b. inactive) (λ b. inactive))
    where
      ready : Daemon
      ready = activate_devices q d

      sent : Daemon
      sent = (client_send_enable_seat q ready).1

      Outcome : Status × Daemon → Type 0
      Outcome r = NoDevices p r.1

      after : NoDevices p sent
      after =
          client_send_enable_seat-NoDevices q ready
            (each_device-NoDevices q seat_activate_device d h)

      inactive : NoDevices p (deactivate_devices q sent)
      inactive = each_device-NoDevices q seat_deactivate_device sent after

  seat_open_client-NoDevices :
      (q : Ptr) (d : Daemon) → NoDevices p d → NoDevices p (seat_open_client q d).1
  unfolding seat_open_client
  seat_open_client-NoDevices q d h =
      if_ind Outcome (not (is_new_or_disabled (d.client q).state)) (λ e. h)
        λ e.
          if_ind Outcome (is_some d.seat.active_client) (λ n. h)
            λ n.
              if_ind Outcome d.seat.vt_bound
                (λ b.
                  Status_ind Outcome (vt_open vt checked.sys).0
                    (λ o. enable_client-NoDevices q vt (on_sys (vt_open vt) checked).1 h) (λ f. h))
                (λ u. enable_client-NoDevices q vt checked h)
    where
      vt : ℤ
      vt = vt_for_client_open d q

      checked : Daemon
      checked = assert (d.client q).in_seat d

      Outcome : Status × Daemon → Type 0
      Outcome r = NoDevices p r.1

  seat_activate-NoDevices : (d : Daemon) → NoDevices p d → NoDevices p (seat_activate d).1
  unfolding seat_activate
  seat_activate-NoDevices d h =
      Option_ind Outcome d.seat.active_client
        (λ a.
          Option_ind Outcome d.seat.next_client
            (λ n. Option_ind Outcome (candidate d) (λ c. h) λ q c. seat_open_client-NoDevices q d h)
            λ q n.
              seat_open_client-NoDevices q (set_seat (record d.seat { next_client = none }) d) h)
        λ q a. h
    where
      Outcome : Status × Daemon → Type 0
      Outcome r = NoDevices p r.1

  -- A client holds no device after `seat_remove_client`, also where the seat goes to another client
  -- within the call.
  pub seat_remove_client-NoDevices : (d : Daemon) → NoDevices p (seat_remove_client p d)
  unfolding seat_remove_client drop_owned_vts release_vt
  seat_remove_client-NoDevices d =
      if_ind (λ (c : Client). c.devices ≡ []) (p == p) (λ e. released) (λ e. released)
    where
      d₁ : Daemon
      d₁ = drop_owned_vts p (close_devices p (unlink p d))

      cleared : Daemon
      cleared = set_seat (record d₁.seat { active_client = none }) d₁

      d₂ : Daemon
      d₂ = when (is_ptr d₁.seat.active_client p) (λ x. (seat_activate cleared).1) d₁

      handed : NoDevices p d₂
      handed =
          if_ind (NoDevices p) (is_ptr d₁.seat.active_client p) {x = (seat_activate cleared).1}
            {y = d₁} (λ a. seat_activate-NoDevices cleared (close_devices-empties p (unlink p d)))
            (λ a. close_devices-empties p (unlink p d))

      unused : Bool
      unused =
          if is_ptr d₁.seat.active_client p
          then not (is_some d₂.seat.active_client)
          else not (is_closed (d₂.client p).state)

      released : NoDevices p (release_vt p (is_ptr d₁.seat.active_client p) d₂)
      released =
          if_ind (NoDevices p) (d₂.seat.vt_bound && unused) {x = close_vt (d₂.client p).session d₂}
            {y = d₂} (λ b. handed) (λ b. handed)

-- If a client that is off the seat has no device, the client has no device after `client_destroy`,
-- which is what the assertion at its end demands.
pub client_destroy-asserts :
    (p : Ptr) (d : Daemon)
    → ((d.client p).in_seat ≡ false → (d.client p).devices ≡ [])
    → ((client_destroy p d).client p).devices ≡ []
unfolding client_destroy
client_destroy-asserts p d h =
    if_ind (NoDevices p) (d.client p).in_seat
      {x = seat_remove_client p (effect (close_fd (d.connection p).fd) d)}
      {y = effect (close_fd (d.connection p).fd) d} (λ s. seat_remove_client-NoDevices p _)
      (λ o. h o)
