-- ===== src/Seat/Clients.antt =====
-- seatd/seat.c: adding a client to the seat, opening, disabling and removing it.
pub mod Departure
pub mod Sessions
use dde_seatd.Prelude.{
  ℕ, zero, suc, ◌+◌, ◌-◌, List, [], ◌∷◌, Option, none, some, Bool, true, false, ltb, ◌==◌, ◌&&◌,
  ◌||◌, not, if◌then◌else◌, is_some, ℤ, pos, eqb_ℤ, minus_one, length, St, Status, ok, fail,
}
use dde_seatd.Kernel.{Sys, out_of_fuel, stop, ebusy, ealready, einval}
use dde_seatd.Daemon.{
  Ptr, Device, client_new, client_active, client_pending_disable, client_disabled, client_closed,
  ClientState, Client, GroupVt, Seat, Daemon, M, set_client, set_seat, on_sys, effect, refuse,
  assert, is_ptr, remove,
}
use dde_seatd.Events.{client_send_enable_seat, client_send_disable_seat}
use dde_seatd.Seat.Vt.{
  ignore, seat_update_vt, vt_open, vt_close, client_owns_vt, vt_for_client_open,
}
use dde_seatd.Seat.Devices.{
  each_device, update_devices, seat_activate_device, seat_deactivate_device, close_first, is_active,
}

abbrev pub is_new_or_disabled : ClientState → Bool
is_new_or_disabled client_new = true
is_new_or_disabled client_disabled = true
is_new_or_disabled _ = false

abbrev pub is_pending_disable : ClientState → Bool
is_pending_disable client_pending_disable = true
is_pending_disable _ = false

abbrev pub is_closed : ClientState → Bool
is_closed client_closed = true
is_closed _ = false

abbrev pub set_state : Ptr → ClientState → Daemon → Daemon
set_state p state d = set_client p (record (d.client p) { state = state }) d

abbrev pub close_vt : ℤ → Daemon → Daemon
close_vt vt = effect (ignore (vt_close vt))

abbrev pub when {ℓ} : {A : Type ℓ} → Bool → (A → A) → A → A
when test f a = if test then f a else a

unfoldable pub activate_devices : Ptr → Daemon → Daemon
unfolding update_devices each_device seat_activate_device
activate_devices p = update_devices p (each_device seat_activate_device)

unfoldable pub deactivate_devices : Ptr → Daemon → Daemon
unfolding update_devices each_device seat_deactivate_device
deactivate_devices p = update_devices p (each_device seat_deactivate_device)

-- What `seat_open_client` does once its guards are passed and the VT is open.
unfoldable pub enable_client : Ptr → ℤ → M Status
unfolding activate_devices deactivate_devices client_send_enable_seat
enable_client p open_vt d =
    let (r, d₁) = client_send_enable_seat p (activate_devices p d) in
    elim r [
      | fail ↦ (fail, when d₁.seat.vt_bound (close_vt open_vt) (deactivate_devices p d₁))
      | ok ↦
          let d₂ = set_state p client_active d₁ in
          (ok, set_seat (record d₂.seat { active_client = some p }) d₂)
    ]

unfoldable pub seat_open_client : Ptr → M Status
unfolding enable_client
seat_open_client p d =
    let d₁ = assert (d.client p).in_seat d in
    let open_vt = vt_for_client_open d p in
    let (r, d₂) = on_sys (vt_open open_vt) d₁ in
    if not (is_new_or_disabled (d.client p).state)
    then refuse fail ealready d₁
    else if is_some d.seat.active_client
    then refuse fail ebusy d₁
    else if d.seat.vt_bound
    then elim r [ fail ↦ (fail, d₂) | ok ↦ enable_client p open_vt d₂ ]
    else enable_client p open_vt d₁

unfoldable pub first_owner : Daemon → ℤ → List Ptr → Option Ptr
first_owner d vt [] = none
first_owner d vt (p ∷ ps) = if client_owns_vt d p vt then some p else first_owner d vt ps

abbrev pub first_client : List Ptr → Option Ptr
first_client [] = none
first_client (p ∷ ps) = some p

-- The client that `seat_activate` opens when none is queued.
unfoldable pub candidate : Daemon → Option Ptr
unfolding first_owner
candidate d =
    if d.seat.vt_bound
    then if eqb_ℤ d.seat.cur_vt minus_one then none else first_owner d d.seat.cur_vt d.seat.clients
    else first_client d.seat.clients

unfoldable pub seat_activate : M Status
unfolding candidate
seat_activate d = elim d.seat.active_client [
  | some p ↦ (ok, d)
  | none ↦ elim d.seat.next_client [
    | some p ↦ seat_open_client p (set_seat (record d.seat { next_client = none }) d)
    | none ↦ elim (candidate d) [ none ↦ (fail, d) | some p ↦ seat_open_client p d ]
  ]
]

unfoldable pub has_session : Daemon → ℤ → List Ptr → Bool
has_session d session [] = false
has_session d session (p ∷ ps) = eqb_ℤ (d.client p).session session || has_session d session ps

-- The search for a free session number: a hit counts on and starts the scan again. `none` is a search
-- that used up its fuel.
unfoldable pub free_session : ℕ → Daemon → ℕ → Option ℕ
unfolding has_session
free_session zero d next = none
free_session (suc fuel) d next =
    let more = free_session fuel d (next + 1) in
    if has_session d (pos next) d.seat.clients then more else some next

-- `client->seat = seat`, and the move from the idle list to the front of the seat's.
unfoldable pub enrol : Ptr → ℤ → Daemon → Daemon
unfolding remove
enrol p session d =
    let c = d.client p in
    let d₁ = set_client p (record c { in_seat = true; session = session }) d in
    let d₂ = record d₁ { idle_clients = remove p d₁.idle_clients } in
    set_seat (record d₂.seat { clients = p ∷ d₂.seat.clients }) d₂

unfoldable pub add_to_vt : Ptr → M Status
unfolding enrol
add_to_vt p d =
    let d₁ = (seat_update_vt d).1 in
    if eqb_ℤ d₁.seat.cur_vt minus_one
    then refuse fail einval d₁
    else if is_some d₁.seat.active_client && has_session d₁ d₁.seat.cur_vt d₁.seat.clients
    then refuse fail ebusy d₁
    else (ok, enrol p d₁.seat.cur_vt d₁)

unfoldable pub add_unbound : Ptr → M Status
unfolding enrol
add_unbound p d = elim (free_session (length d.seat.clients + 1) d 1) [
  | none ↦ (fail, effect (stop out_of_fuel) d)
  | some session ↦ (ok, enrol p (pos session) d)
]

-- Whether the seat has an active client whose state is not CLIENT_PENDING_DISABLE.
abbrev pub is_held : Daemon → Option Ptr → Bool
is_held d none = false
is_held d (some a) = not (is_pending_disable (d.client a).state)

unfoldable pub seat_add_client : Ptr → M Status
unfolding add_to_vt add_unbound
seat_add_client p d =
    if (d.client p).in_seat
    then refuse fail ebusy d
    else if d.seat.vt_bound && is_held d d.seat.active_client
    then refuse fail ebusy d
    else if not (eqb_ℤ (d.client p).session minus_one)
    then refuse fail einval d
    else if d.seat.vt_bound
    then add_to_vt p d
    else add_unbound p d

-- `while (!linked_list_empty(&client->devices)) seat_close_device(client, first)`
unfoldable pub close_every : ℕ → List Device → St Sys (List Device)
unfolding close_first
close_every fuel [] s = ([], s)
close_every zero (dev ∷ devs) s = (dev ∷ devs, stop out_of_fuel s)
close_every (suc fuel) (dev ∷ devs) s =
    let (rest, s') = close_first dev.device_id (dev ∷ devs) s in close_every fuel rest s'

-- A round for each reference, and one for a device that has none.
unfoldable pub close_fuel : List Device → ℕ
close_fuel [] = 0
close_fuel (dev ∷ devs) = dev.ref_cnt + 1 + close_fuel devs

unfoldable pub close_devices : Ptr → Daemon → Daemon
unfolding update_devices close_every close_fuel
close_devices p = update_devices p (λ devs. close_every (close_fuel devs) devs)

-- The grouped VTs without those of the owner `p`, which are closed if the seat is VT-bound.
unfoldable pub drop_group_vts : Ptr → Bool → List GroupVt → St Sys (List GroupVt)
drop_group_vts p vt_bound [] s = ([], s)
drop_group_vts p vt_bound (g ∷ gs) s =
    let s₁ = if g.owner == p then when vt_bound (ignore (vt_close g.vt)) s else s in
    let (rest, s₂) = drop_group_vts p vt_bound gs s₁ in
    (if g.owner == p then rest else g ∷ rest, s₂)

unfoldable pub drop_owned_vts : Ptr → Daemon → Daemon
unfolding drop_group_vts
drop_owned_vts p d =
    let (gs, s) = drop_group_vts p d.seat.vt_bound d.seat.group_vts d.sys in
    record d { sys = s; seat = record d.seat { group_vts = gs } }

-- The unlinking at the start of `seat_remove_client`.
unfoldable pub unlink : Ptr → Daemon → Daemon
unfolding remove
unlink p d =
    set_seat
      (record d.seat {
        next_client = if is_ptr d.seat.next_client p then none else d.seat.next_client;
        clients = remove p d.seat.clients;
      })
      d

-- The clean-up of the VT: of a current client if no other took over, of another if it was running.
unfoldable pub release_vt : Ptr → Bool → Daemon → Daemon
release_vt p was_current d =
    let unused =
      if was_current
      then not (is_some d.seat.active_client)
      else not (is_closed (d.client p).state) in
    when (d.seat.vt_bound && unused) (close_vt (d.client p).session) d

unfoldable pub seat_remove_client : Ptr → Daemon → Daemon
unfolding unlink close_devices drop_owned_vts release_vt
seat_remove_client p d =
    let d₁ = drop_owned_vts p (close_devices p (unlink p d)) in
    let was_current = is_ptr d₁.seat.active_client p in
    let cleared = set_seat (record d₁.seat { active_client = none }) d₁ in
    let d₂ = when was_current (λ x. (seat_activate cleared).1) d₁ in
    let d₃ = release_vt p was_current d₂ in
    set_client p (record (d₃.client p) { state = client_closed; in_seat = false }) d₃

-- The `assert` on the seat pointer follows a use of the client's state alone.
unfoldable pub seat_disable_client : Ptr → M Status
unfolding deactivate_devices
seat_disable_client p d =
    let d₁ = assert ((d.client p).in_seat && is_ptr d.seat.active_client p) d in
    let d₂ = set_state p client_pending_disable (deactivate_devices p d₁) in
    if is_active (d.client p).state then client_send_disable_seat p d₂ else refuse fail ebusy d

unfoldable pub seat_ack_disable_client : Ptr → M Status
seat_ack_disable_client p d =
    let d₁ = set_state p client_disabled d in
    let d₂ = set_seat (record d₁.seat { active_client = none }) d₁ in
    if not (is_pending_disable (d.client p).state)
    then refuse fail ebusy d
    else if is_ptr d₁.seat.active_client p
    then (ok, (seat_activate d₂).1)
    else (ok, d₁)
