-- ===== src/Protocol/IncomingLaws.antt =====
-- How a frame from the browser is routed by its first byte.
use hitl_daemon.Base.{
  ℕ, ◌==◌, ◌<◌, ◌≡◌, refl, ap, sym, subst, ◌∙◌, [], if◌then◌else◌, List, ◌∷◌, Result, ok, err,
  ◌>>=◌, eqb→eq,
}
use hitl_daemon.Protocol.Errors.{ProtocolError, unknown_message_type}
use hitl_daemon.Protocol.Promise.{Holds, Holds-err, Holds-if, Holds-imp, Holds-ok}
use hitl_daemon.Protocol.Commands.{Command}
use hitl_daemon.Protocol.Commands
use hitl_daemon.Protocol.Nsh
use hitl_daemon.Protocol.Tiles
use hitl_daemon.Protocol.CommandLaws.{heard, FitsAltitude, from_bytes-heard}
use hitl_daemon.Protocol.Bytes.{byte_at}
use hitl_daemon.Protocol.Incoming.{
  Decoders, IncomingMessage, command, handshake, nsh_command, configure_build, shutdown,
  request_preflight_check, apply_preflight_params, snapshot_stored, restore_snapshot, terrain_tiles,
  configure_build_from_bytes, snapshot_stored_from_bytes, restore_snapshot_from_bytes, dispatch,
  from_bytes,
}

-- The tag of the documentation for each message.
abbrev pub tag_of : {C S R : Type 0} → IncomingMessage C S R → ℕ
tag_of (command _) = 16
tag_of handshake = 17
tag_of (nsh_command _) = 18
tag_of (configure_build _) = 19
tag_of shutdown = 7
tag_of request_preflight_check = 20
tag_of apply_preflight_params = 21
tag_of (snapshot_stored _) = 22
tag_of (restore_snapshot _) = 23
tag_of (terrain_tiles _) = 24

module _ {C S R : Type 0} (d : Decoders C S R) where
  abbrev Tagged : ℕ → IncomingMessage C S R → Type 0
  Tagged tag m = tag_of m ≡ tag

  -- One branch of the dispatch: what it decodes has the tag that was tested for.
  routed :
      (tag k : ℕ) (x other : Result ProtocolError (IncomingMessage C S R))
      → Holds (Tagged k) x
      → Holds (Tagged tag) other
      → Holds (Tagged tag) (if tag == k then x else other)
  routed tag k x other hx rest =
      Holds-if (Tagged tag) (tag == k) x other
        (λ e. Holds-imp (Tagged k) (Tagged tag) x hx (λ m q. q ∙ sym (eqb→eq tag k e))) (λ _. rest)

  decoded :
      {A : Type 0} (k : ℕ) (r : Result ProtocolError A) (f : A → IncomingMessage C S R)
      → ((a : A) → Tagged k (f a))
      → Holds (Tagged k) (r >>= (λ a. ok (f a)))
  decoded k (ok a) f known = Holds-ok ProtocolError (Tagged k) (f a) (known a)
  decoded k (err e) f known = Holds-err (Tagged k) e

  plain :
      (tag k : ℕ) (m : IncomingMessage C S R) (other : Result ProtocolError (IncomingMessage C S R))
      → Tagged k m
      → Holds (Tagged tag) other
      → Holds (Tagged tag) (if tag == k then ok m else other)
  plain tag k m other known rest =
      routed tag k (ok m) _ (Holds-ok ProtocolError (Tagged k) m known) rest

  dispatch-tag : (tag : ℕ) (bytes : List ℕ) → Holds (Tagged tag) (dispatch d tag bytes)
  unfolding dispatch
  dispatch-tag tag bytes =
      routed tag 16 _ _ (decoded 16 (Commands.from_bytes bytes) command (λ _. refl)) (
        plain tag 17 handshake _ refl (
          routed tag 18 _ _
            (decoded 18 (Nsh.from_bytes d.from_utf8_lossy bytes) nsh_command (λ _. refl))
            (routed tag 19 _ _
              (decoded 19 (configure_build_from_bytes d bytes) configure_build (λ _. refl))
              (routed tag 24 _ _
                (decoded 24 (Tiles.from_bytes d.tiles_header bytes) terrain_tiles (λ _. refl))
                (plain tag 7 shutdown _ refl (
                  plain tag 20 request_preflight_check _ refl (
                    plain tag 21 apply_preflight_params _ refl (
                      routed tag 22 _ _
                        (decoded 22 (snapshot_stored_from_bytes d bytes) snapshot_stored
                          (λ _. refl))
                        (routed tag 23 _ _
                          (decoded 23 (restore_snapshot_from_bytes d bytes) restore_snapshot
                            (λ _. refl))
                          (Holds-err (Tagged tag) (unknown_message_type tag)))))))))))

  -- A frame that is accepted begins with the tag of the message that it is decoded to.
  pub from_bytes-tag :
      (bytes : List ℕ) (m : IncomingMessage C S R)
      → from_bytes d bytes ≡ ok m
      → byte_at 0 bytes ≡ tag_of m
  unfolding from_bytes Holds
  from_bytes-tag [] m h = absurd (cc h)
  from_bytes-tag (tag ∷ rest) m h =
      sym (subst (Holds (Tagged tag)) h (dispatch-tag tag (tag ∷ rest)))

  -- A command that the browser encoded reaches the handler, or is refused for its missing payload.
  pub from_bytes-command :
      (c : Command)
      → c.command_id < 4294967296
      → FitsAltitude c.takeoff_altitude
      → from_bytes d (Commands.to_bytes c) ≡ (
          heard c.command_id c.command_type c.takeoff_altitude c.set_mode_value >>= λ k.
          ok (command k))
  unfolding from_bytes dispatch Commands.to_bytes
  from_bytes-command c h k = ap (λ r. r >>= λ k. ok (command k)) (from_bytes-heard c h k)
