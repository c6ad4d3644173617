-- ===== src/Libseat/Errors.antt =====
-- libseat/backend/seatd.c: malformed messages, and a backend that is in error.
use dde_seatd.Prelude.{
  List, ◌∷◌, ap, ◌∙◌, ℕ, ◌≡◌, ◌≢◌, refl, sym, subst, [], Option, none, ◌⊎◌, inl, inr, Bool, true,
  false, ◌==◌, ◌||◌, not, if_ind, drop, arith, fail, ℤ, pos, negsuc,
}
use dde_seatd.Kernel.{Bytes, enotconn, ebadmsg}
use dde_seatd.Client.Dispatch.{u16_of_bytes}
use dde_seatd.Libseat.State.{Backend, Side, Listener, with_errno, set_error, cleanup, destroy}
use dde_seatd.Libseat.Reading.{server_error, fits, check_header, read_error, execute_events}
use dde_seatd.Libseat.Requests.{
  dispatch, open_device, int_operation, close_device, switch_session, disable_seat, end_seat,
  close_seat, minus_errno,
}

-- A header that is neither the response nor the daemon's error.
abbrev pub Malformed : ℕ → ℕ → Bool → Bytes → Type 0
Malformed expected_opcode expected_size variable header =
    let opcode = u16_of_bytes header in
    let size = u16_of_bytes (drop 2 header) in
    ((opcode ≡ expected_opcode) × (fits variable expected_size size ≡ false))
    ⊎ ((opcode ≢ expected_opcode) × ((opcode ≢ server_error) ⊎ (size ≢ 4)))

-- At `w`, each of the five requests of the program returns -1 with ENOTCONN and does nothing else;
-- `close_seat` does what it always does to the backend.
pub record Refuses (w : Side) : Type 0 where
  pub dispatches :
      (listener : Listener) (at_once : Bool)
      → dispatch listener at_once w ≡ (none, with_errno enotconn w)
  pub opens :
      (rounds : ℕ) (path : Bytes) → open_device rounds path w ≡ ((none, []), with_errno enotconn w)
  pub closes : (rounds : ℕ) (id : ℤ) → close_device rounds id w ≡ (fail, with_errno enotconn w)
  pub switches :
      (rounds : ℕ) (session : ℤ) → switch_session rounds session w ≡ (fail, with_errno enotconn w)
  pub disables : (rounds : ℕ) → disable_seat rounds w ≡ (fail, with_errno enotconn w)
  pub ends :
      (rounds : ℕ) (listener : Listener)
      → close_seat rounds listener w
        ≡ (fail, record (destroy (execute_events listener w).1) { errno = enotconn })

int_operation-refuses :
    (rounds opcode response : ℕ) (n : ℤ) (w : Side)
    → w.backend.error ≡ true
    → int_operation rounds opcode response n w ≡ (fail, with_errno enotconn w)
unfolding int_operation
int_operation-refuses rounds opcode response (pos n) w e = rw (int_operation, e) refl
int_operation-refuses rounds opcode response (negsuc n) w e = rw (int_operation, e) refl

error-Refuses : (w : Side) → w.backend.error ≡ true → Refuses w
unfolding dispatch open_device close_device switch_session disable_seat close_seat end_seat
    minus_errno
error-Refuses w e = record {
  dispatches = λ listener at_once. rw (dispatch, e) refl;
  opens = λ rounds path. rw (open_device, e) refl;
  closes = λ rounds id. int_operation-refuses rounds 4 _ id w e;
  switches = λ rounds session. int_operation-refuses rounds 6 _ session w e;
  disables = λ rounds. rw (disable_seat, e) refl;
  ends = λ rounds listener.
      if_ind
        (λ r.
          end_seat listener r
          ≡ (fail, record (destroy (execute_events listener w).1) { errno = enotconn }))
        w.backend.error (λ t. refl) (λ f. absurd (ground (arith, e)));
}

-- The requests that leave a backend, with their arguments.
pub data Operation : Type 0 where
  dispatching : Listener → Bool → Operation
  opening : ℕ → Bytes → Operation
  closing : ℕ → ℤ → Operation
  switching : ℕ → ℤ → Operation
  disabling : ℕ → Operation

abbrev pub perform : Operation → Side → Side
perform (dispatching listener at_once) w = (dispatch listener at_once w).1
perform (opening rounds path) w = (open_device rounds path w).1
perform (closing rounds id) w = (close_device rounds id w).1
perform (switching rounds session) w = (switch_session rounds session w).1
perform (disabling rounds) w = (disable_seat rounds w).1

abbrev pub perform_all : List Operation → Side → Side
perform_all [] w = w
perform_all (op ∷ ops) w = perform_all ops (perform op w)

perform-refused : (op : Operation) (w : Side) → Refuses w → perform op w ≡ with_errno enotconn w
perform-refused (dispatching listener at_once) w r = ap (λ x. x.1) (r.dispatches listener at_once)
perform-refused (opening rounds path) w r = ap (λ x. x.1) (r.opens rounds path)
perform-refused (closing rounds id) w r = ap (λ x. x.1) (r.closes rounds id)
perform-refused (switching rounds session) w r = ap (λ x. x.1) (r.switches rounds session)
perform-refused (disabling rounds) w r = ap (λ x. x.1) (r.disables rounds)

-- A backend in error stays as it is.
perform_all-backend :
    (ops : List Operation) (w : Side)
    → w.backend.error ≡ true
    → (perform_all ops w).backend ≡ w.backend
perform_all-backend [] w e = refl
perform_all-backend (op ∷ ops) w e =
    perform_all-backend ops (perform op w) (ap (λ (b : Backend). b.error) same ∙ e) ∙ same
  where
    same : (perform op w).backend ≡ w.backend
    same = ap (λ (x : Side). x.backend) (perform-refused op w (error-Refuses w e))

check_header-Malformed :
    (expected_opcode expected_size : ℕ) (variable : Bool) (header : Bytes) (w : Side)
    → Malformed expected_opcode expected_size variable header
    → check_header expected_opcode expected_size variable header w
      ≡ (none, with_errno ebadmsg (set_error w))
unfolding check_header read_error
check_header-Malformed expected_opcode expected_size variable header w m = elim m [
  | inl wrong_size ↦
      if_ind Goal (not (u16_of_bytes header == expected_opcode))
        (λ e. absurd (ground (arith, wrong_size.0)))
        λ e.
          if_ind Goal (not (fits variable expected_size (u16_of_bytes (drop 2 header)))) (λ f. refl)
            (λ f. absurd (ground (arith, wrong_size.1)))
  | inr unexpected ↦
      if_ind Goal (not (u16_of_bytes header == expected_opcode))
        (λ e.
          if_ind Goal
            (not (u16_of_bytes header == server_error) || not (u16_of_bytes (drop 2 header) == 4))
            (λ f. refl)
            λ f. absurd (elim unexpected.1 [
              | inl no_error ↦ no_error (ground arith)
              | inr bad_size ↦ bad_size (ground arith)
            ]))
        (λ e. absurd (unexpected.0 (ground arith)))
]
  where
    Goal : Option ℕ × Side → Type 0
    Goal r = r ≡ (none, with_errno ebadmsg (set_error w))

set_error-error : (w : Side) → (set_error w).backend.error ≡ true
unfolding set_error cleanup
set_error-error w =
    if_ind (λ (x : Side). x.backend.error ≡ true) w.backend.error (λ e. e) (λ e. refl)

pub set_error-pending :
    (w : Side) → w.backend.error ≡ false → (set_error w).backend.pending_events ≡ []
unfolding set_error cleanup
set_error-pending w e =
    if_ind (λ (x : Side). x.backend.pending_events ≡ []) w.backend.error
      (λ t. absurd (ground (arith, e))) (λ f. refl)

-- What a backend `w` in error comes to after some requests, of which `w'` is the state: it is the same
-- backend and refuses again.
pub record StaysBroken (w w' : Side) : Type 0 where
  pub same : w'.backend ≡ w.backend
  pub refuses : Refuses w'

error-StaysBroken :
    (ops : List Operation) (w : Side) → w.backend.error ≡ true → StaysBroken w (perform_all ops w)
error-StaysBroken ops w e =
    let same = perform_all-backend ops w e in
    record {
      same = same;
      refuses = error-Refuses (perform_all ops w) (ap (λ (b : Backend). b.error) same ∙ e);
    }

-- For a backend that is not in error yet, a header that is neither the expected response, with a
-- size that fits, nor the daemon's error makes the reading fail with EBADMSG and drops the pending
-- events. After any sequence of calls of `dispatch`, `open_device`, `close_device`,
-- `switch_session` and `disable_seat` that follow, the backend is still the same, and each of these
-- five returns -1 with ENOTCONN and changes nothing but `errno`, while `close_seat` returns -1 with
-- ENOTCONN after destroying the backend.
pub check_header-final :
    (expected_opcode expected_size : ℕ) (variable : Bool) (header : Bytes) (w : Side)
    (ops : List Operation)
    → w.backend.error ≡ false
    → Malformed expected_opcode expected_size variable header
    → (let r = check_header expected_opcode expected_size variable header w in
        (r.0 ≡ none)
        × (r.1.sys.errno ≡ ebadmsg)
        × (r.1.backend.pending_events ≡ [])
        × StaysBroken r.1 (perform_all ops r.1))
check_header-final expected_opcode expected_size variable header w ops e m =
    subst
      (λ (r : Option ℕ × Side).
        (r.0 ≡ none)
        × (r.1.sys.errno ≡ ebadmsg)
        × (r.1.backend.pending_events ≡ [])
        × StaysBroken r.1 (perform_all ops r.1))
      (sym (check_header-Malformed expected_opcode expected_size variable header w m))
      (refl, refl, set_error-pending w e, error-StaysBroken ops _ (set_error-error w))
