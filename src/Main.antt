-- ===== src/Main.antt =====
-- seatd/seatd.c: what the main program does with the paths of its sockets.
pub mod Sockets
use dde_seatd.Prelude.{
  ℕ, List, [], ◌∷◌, ◌++◌, Option, none, some, Bool, true, false, ◌==◌, ◌||◌, not, if◌then◌else◌,
  take, length, ◌+◌, ℤ, minus_one, eqb_ℤ, St, Status, ok, fail,
}
use dde_seatd.Kernel.{Bytes, Call, Sys, socket, bind, listen, chmod, chown, lstat, unlink, syscall}
use dde_seatd.Seat.Vt.{close_fd}

-- Calls in a row, up to the first that fails.
unfoldable pub run_calls : List Call → St Sys Status
run_calls [] s = (ok, s)
run_calls (c ∷ cs) s =
    let (r, s') = syscall c s in elim r [ none ↦ (fail, s') | some n ↦ run_calls cs s' ]

-- `sun_path` has 108 bytes, the last of which stays NUL.
abbrev pub setup_calls : Bytes → ℤ → ℤ → Bool → ℕ → ℕ → List Call
setup_calls path uid gid chmod_socket mode fd =
    bind fd (take 107 path) (2 + length (take 107 path))
    ∷ listen fd
    ∷ ((if chmod_socket then chmod path mode ∷ [] else [])
        ++ (if not (eqb_ℤ uid minus_one) || not (eqb_ℤ gid minus_one)
            then chown path uid gid ∷ []
            else []))

unfoldable pub open_socket_internal : Bytes → ℤ → ℤ → Bool → ℕ → St Sys (Option ℕ)
unfolding run_calls
open_socket_internal path uid gid chmod_socket mode s =
    let (r, s₁) = syscall socket s in
    elim r [
      | none ↦ (none, s₁)
      | some fd ↦
          let (q, s₂) = run_calls (setup_calls path uid gid chmod_socket mode fd) s₁ in
          elim q [ ok ↦ (some fd, s₂) | fail ↦ (none, close_fd fd s₂) ]
    ]

-- With mode 0770.
unfoldable pub open_socket : Bytes → ℤ → ℤ → St Sys (Option ℕ)
unfolding open_socket_internal
open_socket path uid gid =
    open_socket_internal path uid gid (not (eqb_ℤ uid minus_one) || not (eqb_ℤ gid minus_one)) 504

-- With mode 0600.
unfoldable pub open_control_socket : Bytes → St Sys (Option ℕ)
unfolding open_socket_internal
open_control_socket path = open_socket_internal path minus_one minus_one true 384

-- A socket that an earlier daemon left at the path goes away.
unfoldable pub clear_path : Bool → Bytes → St Sys Status
clear_path unlink_existing_socket path s =
    let (r, s₁) = syscall (lstat path) s in
    let (u, s₂) = syscall (unlink path) s₁ in
    elim r [
      | none ↦ (ok, s₁)
      | some kind ↦
          if not (kind == 1)
          then (fail, s₁)
          else if not unlink_existing_socket
          then (fail, s₁)
          else elim u [ none ↦ (fail, s₂) | some done ↦ (ok, s₂) ]
    ]

unfoldable pub clear_paths : Bool → Bytes → Option Bytes → St Sys Status
unfolding clear_path
clear_paths unlink_existing_socket socket_path control_socket_path s =
    let (r, s₁) = clear_path unlink_existing_socket socket_path s in
    elim r [
      | fail ↦ (fail, s₁)
      | ok ↦ elim control_socket_path [
        | none ↦ (ok, s₁)
        | some path ↦ clear_path unlink_existing_socket path s₁
      ]
    ]
