-- ===== src/Tests/Groups.antt =====
-- A seat that is bound to VTs, on which the client 1 has a grouped VT.
use dde_seatd.Prelude.{◌≡◌, refl, [], ◌∷◌, none, true, false, pos}
use dde_seatd.Daemon.{GroupVt, Daemon}
use dde_seatd.Seat.Vt.{seat_find_group_vt, find_group_vt}
use dde_seatd.Seat.GroupVts.{seat_create_group_vt, seat_destroy_group_vt}
use dde_seatd.Seat.GroupVts.Sharing.{
  DistinctVts, Grants, seat_create_group_vt-Grants, seat_destroy_group_vt-gone,
}
use dde_seatd.Tests.Scene.{shared}

abbrev group : GroupVt
group = record { owner = 1; vt = pos 4; user = []; session = [] }

abbrev grouped : Daemon
grouped = record (shared false) {
  seat = record (shared false).seat { vt_bound = true; cur_vt = pos 1; group_vts = group ∷ [] };
}

grouped-DistinctVts : DistinctVts grouped.seat.group_vts
unfolding find_group_vt
grouped-DistinctVts = (refl, tt)

seat_create_group_vt-Grants_example :
    Grants 1 grouped (seat_create_group_vt 1 (pos 7) [] [] grouped)
seat_create_group_vt-Grants_example =
    seat_create_group_vt-Grants 1 (pos 7) [] [] grouped grouped-DistinctVts

seat_destroy_group_vt-gone_example :
    DistinctVts (seat_destroy_group_vt (pos 4) grouped).1.seat.group_vts
    × (seat_find_group_vt (seat_destroy_group_vt (pos 4) grouped).1.seat (pos 4) ≡ none)
seat_destroy_group_vt-gone_example = seat_destroy_group_vt-gone (pos 4) grouped grouped-DistinctVts
