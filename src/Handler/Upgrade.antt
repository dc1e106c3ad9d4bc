-- ===== src/Handler/Upgrade.antt =====
-- The two places that decide on a request to upgrade to WebSocket: `HttpRequest::is_websocket_upgrade`
-- of src/http/HttpRequest.cpp, which `HttpConnection` asks, and `handle_websocket_upgrade` of
-- src/Handler.cpp, which answers; and what `handle_write` of src/http/HttpConnection.cpp does when the
-- answer is sent.
use linux_cpp_web_server.Common.{
  ℕ, ◌≡◌, ◌≢◌, ◌↔◌, refl, ap, sym, ◌∙◌, Bool, true, false, some, List, ◌==◌, if◌then◌else◌, inl,
  inr, Bool-cases, Option-cases, arith,
}
use linux_cpp_web_server.Common.Bytes.{Bytes, codes, is_empty, bytes_eq}
use linux_cpp_web_server.Common.Maps
use linux_cpp_web_server.Common.Maps.{bytes_key}
use linux_cpp_web_server.Http.Request.{
  HttpRequest, is_get, holds, names_websocket, is_websocket_upgrade,
}
use linux_cpp_web_server.Http.Response.{HttpResponse, with_status, with_header, set_header}
use linux_cpp_web_server.Tools.{Action, write, wait, close, upgrade}
use linux_cpp_web_server.Http.Connection.{
  HttpConnection, FileOpen, cannot_open, cannot_stat, opened, prepare_text, prepare_file,
  without_file, prepare_response, is_keep_alive, reset_for_keep_alive, after_sending, sent, acted,
  respond, handle_write,
}
use linux_cpp_web_server.Http.Connection.Writing.{SocketWrite, all_sent, testing, send_loop}
use linux_cpp_web_server.Handler.{upgrade_response}

neither : (code : ℕ) → code ≢ 101 → (code ≡ 101) ↔ (false ≡ true)
neither code h = (λ e. absurd (h e), λ e. absurd (cc))

-- `upgrade_response` is 101, by which the client changes to WebSocket, exactly on the
-- requests that `is_websocket_upgrade` names.
upgrade_response-is_websocket_upgrade :
    (generate_accept_value : Bytes → Bytes) (req : HttpRequest)
    → ((upgrade_response generate_accept_value req).status_code ≡ 101)
      ↔ (is_websocket_upgrade req ≡ true)
unfolding upgrade_response is_websocket_upgrade with_status with_header set_header holds
upgrade_response-is_websocket_upgrade generate_accept_value req =
    elim (Bool-cases (is_get req.method)) [
      | inr other ↦ rw (upgrade_response, is_websocket_upgrade, other) (neither _ (omega arith))
      | inl got ↦ elim (Option-cases (Maps.get (codes "Upgrade") req.headers)) [
        | inl e ↦ rw (upgrade_response, is_websocket_upgrade, got, e) (neither _ (omega arith))
        | inr (up, e) ↦ elim (Bool-cases (names_websocket up)) [
          | inr named ↦
              rw (upgrade_response, is_websocket_upgrade, got, e, holds, named)
                (neither _ (omega arith))
          | inl named ↦ elim (Option-cases (Maps.get (codes "Sec-WebSocket-Key") req.headers)) [
            | inl e' ↦
                rw (upgrade_response, is_websocket_upgrade, got, e, holds, named, e')
                  (neither _ (omega arith))
            | inr (key, e') ↦
                elim (Option-cases (Maps.get (codes "Sec-WebSocket-Version") req.headers)) [
                  | inl v ↦
                      rw (upgrade_response, is_websocket_upgrade, got, e, holds, named, e', v)
                        (neither _ (omega arith))
                  | inr (version, v) ↦ elim (Bool-cases (bytes_eq version (codes "13"))) [
                    | inr w ↦
                        rw (upgrade_response, is_websocket_upgrade, got, e, holds, named, e', v, w)
                          (neither _ (omega arith))
                    | inl w ↦
                        rw (upgrade_response, is_websocket_upgrade, got, e, holds, named, e', v, w)
                          (λ e. refl, λ e. refl)
                  ]
                ]
          ]
        ]
      ]
    ]

-- What a connection does when a response with the status `code` is sent.
abbrev pub after_answer : ℕ → Bool → Action
after_answer code keep_alive = if keep_alive then wait else if code == 101 then upgrade else close

sent-after_answer :
    (generate_accept_value : Bytes → Bytes) (req : HttpRequest) (c : HttpConnection)
    → c.parser.request ≡ req
    → c.is_websocket ≡ is_websocket_upgrade req
    → (d : HttpConnection) × (sent all_sent c
        ≡ some (
          after_answer (upgrade_response generate_accept_value req).status_code (is_keep_alive req),
          d,
        ))
unfolding sent after_sending without_file
sent-after_answer generate_accept_value req c same flag =
    let named = upgrade_response-is_websocket_upgrade generate_accept_value req in
    let code = (upgrade_response generate_accept_value req).status_code in
    elim (Bool-cases (is_keep_alive req)) [
      | inl keeps ↦
          (reset_for_keep_alive (without_file c), rw (sent, after_sending, same, keeps) refl)
      | inr closes ↦ elim (Bool-cases (is_websocket_upgrade req)) [
        | inl upgrades ↦
            let is_101 : (code == 101) ≡ true = (let h = named.1 upgrades in ground arith) in
            (
              record (without_file c) { is_websocket = false },
              rw (sent, after_sending, same, closes, flag, upgrades, is_101) refl,
            )
        | inr plain ↦ elim (Bool-cases (code == 101)) [
          | inl is_101 ↦ absurd (cc (sym (named.0 (ground arith)) ∙ plain))
          | inr other ↦
              (without_file c, rw (sent, after_sending, same, closes, flag, plain, other) refl)
        ]
      ]
    ]

module _ {W : Type 0} (files : Bytes → FileOpen)
    (route_request : HttpRequest → W → HttpResponse × W) (can_open : Bytes → Bool)
    (time : ℕ → ℕ) where
  prepare_response-kept :
      (r : HttpResponse) (c : HttpConnection)
      → ((prepare_response files route_request can_open time r c).is_websocket ≡ c.is_websocket)
        × ((prepare_response files route_request can_open time r c).parser ≡ c.parser)
  unfolding prepare_response prepare_text prepare_file without_file
  prepare_response-kept r c = elim (Bool-cases (is_empty r.file_path)) [
    | inl text ↦ rw (prepare_response, text) (refl, refl)
    | inr file ↦ by_open file (files r.file_path) refl
  ]
    where
      by_open :
          is_empty r.file_path ≡ false
          → (o : FileOpen) → files r.file_path ≡ o
          → ((prepare_response files route_request can_open time r c).is_websocket ≡ c.is_websocket)
            × ((prepare_response files route_request can_open time r c).parser ≡ c.parser)
      by_open file cannot_open e = rw (prepare_response, file, e) (refl, refl)
      by_open file (cannot_stat b) e = rw (prepare_response, file, e) (refl, refl)
      by_open file (opened b) e = rw (prepare_response, file, e) (refl, refl)

  -- When a connection has prepared the response to the request that it parsed, and all of it is sent:
  -- where the request asks for keep-alive, `handle_write` waits for another request of HTTP, even where
  -- `handle_websocket_upgrade` answers the request by 101; where it does not, `handle_write` changes the
  -- connection to WebSocket if `handle_websocket_upgrade` answers by 101, and closes it otherwise.
  pub respond-after_answer :
      (generate_accept_value : Bytes → Bytes) (c c' : HttpConnection) (w w' : W)
      (ws : List SocketWrite)
      → respond files route_request can_open time c w ≡ acted write c' w'
      → (send_loop ws testing c'.sending).ended ≡ all_sent
      → (d : HttpConnection) × ((handle_write ws c').0
          ≡ some (
            after_answer
                (upgrade_response generate_accept_value c.parser.request).status_code
                (is_keep_alive c.parser.request),
            d,
          ))
  unfolding respond handle_write
  respond-after_answer generate_accept_value c c' w w' ws e over =
      let req = c.parser.request in
      let r = route_request req w in
      let flagged : HttpConnection = record c { is_websocket = is_websocket_upgrade req } in
      let ready : HttpConnection =
        record (prepare_response files route_request can_open time r.0 flagged) {
          is_writing = true;
        } in
      let (flag, parser) = prepare_response-kept r.0 flagged in
      let same : ready ≡ c' = cc e in
      let writing : c'.is_writing ≡ true = ap (λ x. x.is_writing) (sym same) in
      let asked : c'.parser.request ≡ req =
        ap (λ x. x.parser.request) (sym same) ∙ ap (λ p. p.request) parser in
      let flagged' : c'.is_websocket ≡ is_websocket_upgrade req =
        ap (λ x. x.is_websocket) (sym same) ∙ flag in
      rw (handle_write, writing, over)
        (sent-after_answer generate_accept_value req
          (record c' { is_writing = true; sending = (send_loop ws testing c'.sending).left }) asked
          flagged')
