-- ===== src/Layers/Handshakes.antt =====
-- A request header through each of the two disguises.
use open_snell.Base.{
  ℕ, ◌<◌, ◌≤◌, ◌≡◌, refl, List, [], Bool, Option, none, some, inl, length, if◌then◌else◌,
}
use open_snell.Io.{Conn, Error, ok}
use open_snell.Tls.{Draw, IsDraw, TlsClient, TlsServer}
use open_snell.Tls.Client.{new_tls_client}
use open_snell.Tls.Server.{new_tls_server}
use open_snell.Http.Types.{HttpLib, ReadsBack}
use open_snell.Http.Client.{HttpClient, Random, new_http_client}
use open_snell.Http.Server.{HttpServer, Stamp, new_http_server}
use open_snell.Aead.{Aead, IsAead}
use open_snell.Aead.Cipher.{CryptoLib, Cipher, salt_size, decrypter}
use open_snell.Aead.Stream.{StreamConn, new_conn, new_conn_with_fallback, stream_write}
use open_snell.Socks5.Text.{NetLib, itoa}
use open_snell.Snell.Header.{header, server_handshake}
use open_snell.Layers.SealedStream.{IsOther}
use open_snell.Layers.TlsEnds
use open_snell.Layers.TlsEnds.{tls_client_conn, tls_server_conn, tls_channel}
use open_snell.Layers.HttpEnds
use open_snell.Layers.HttpEnds.{http_client_conn, http_server_conn, http_channel, asked}
use open_snell.Layers.Through.{server_conn, server_handshake-through}

-- What any `Write` of the server's end may be.
abbrev pub AnyWrite : Type 0 → Type 0
AnyWrite S = List ℕ → StreamConn S → (ℕ × Option Error) × StreamConn S

module _ {Block : Type 0} (lib : CryptoLib Block) (main fb : Cipher) (am af : Aead) (salt : List ℕ)
    (hs : length salt ≡ salt_size) (hm : decrypter lib main salt ≡ ok am)
    (hf : decrypter lib fb salt ≡ ok af) (lm : IsAead am) (lf : IsAead af)
    (other : IsOther am af) where
  fresh_tls :
      (d : Draw) (c : Conn) (name : List ℕ)
      → c.faults ≡ []
      → c.output ≡ []
      → length name ≤ 255
      → TlsEnds.Wrote d [] (new_tls_client c name)
  unfolding new_tls_client
  fresh_tls d c name clean fresh short = record {
    clean = clean;
    short_name = short;
    sent = inl (refl, refl, fresh);
  }

  -- A client that dresses its connection as TLS sends the header of a request, encrypted, over a
  -- connection that takes every write: `Write` takes the header whole, and the handshake of a server
  -- behind both layers, on what came down the wire and however the network cuts it, comes to the host,
  -- the port in decimal, and the CONNECT command of the client's version. The client has the server's
  -- first cipher for version 2, and its fallback otherwise, which the first one refuses; the host has
  -- at most 253 bytes, the port 16 bits, and the server name at most 255 bytes.
  pub server_handshake-through_tls :
      (net : NetLib) (host name : List ℕ) (port : ℕ) (v2 : Bool) (d e : Draw) (law : IsDraw d)
      (c s : Conn) (send : AnyWrite TlsServer)
      → c.faults ≡ []
      → c.output ≡ []
      → length name ≤ 255
      → length host ≤ 253
      → port < 65536
      → (sc : StreamConn TlsClient) × (t : StreamConn TlsServer) × (stream_write lib
            ⦃io = tls_client_conn d⦄
            (ok salt)
            (header host port v2)
            (new_conn (new_tls_client c name) (if v2 then main else fb))
          ≡ some (ok (length (header host port v2), none), sc))
        × (server_handshake ⦃io = server_conn lib ⦃io = tls_server_conn e⦄ send⦄ net (
              new_conn_with_fallback
                (new_tls_server (record s { input = sc.conn.conn.output }))
                main
                fb)
            ≡ (ok (net.join_host_port host (itoa port), if v2 then 5 else 1), t))
  server_handshake-through_tls net host name port v2 d e law c s send clean fresh named short
        small =
      server_handshake-through lib main fb am af salt hs hm hf lm lf other ⦃out = tls_client_conn d⦄
        ⦃inp = tls_server_conn e⦄ (tls_channel d e law s) net host port v2 (new_tls_client c name)
        send (fresh_tls d c name clean fresh named) short small

  fresh_http :
      (h : HttpLib) (r : Random) (name digits : List ℕ) (c : Conn)
      → c.faults ≡ []
      → c.output ≡ []
      → HttpEnds.Wrote h r name digits [] (new_http_client c name digits)
  unfolding new_http_client
  fresh_http h r name digits c clean fresh = record {
    clean = clean;
    same_host = refl;
    same_port = refl;
    sent = inl (refl, refl, fresh);
  }

  -- The same through HTTP, where the library reads back the client's upgrade requests.
  pub server_handshake-through_http :
      (net : NetLib) (host : List ℕ) (port : ℕ) (v2 : Bool) (h : HttpLib) (r : Random) (p : Stamp)
      (name digits : List ℕ) (law : (b : List ℕ) → ReadsBack h (asked h r name digits b))
      (c s : Conn) (send : AnyWrite HttpServer)
      → c.faults ≡ []
      → c.output ≡ []
      → length host ≤ 253
      → port < 65536
      → (sc : StreamConn HttpClient) × (t : StreamConn HttpServer) × (stream_write lib
            ⦃io = http_client_conn h r⦄
            (ok salt)
            (header host port v2)
            (new_conn (new_http_client c name digits) (if v2 then main else fb))
          ≡ some (ok (length (header host port v2), none), sc))
        × (server_handshake ⦃io = server_conn lib ⦃io = http_server_conn h p⦄ send⦄ net (
              new_conn_with_fallback
                (new_http_server (record s { input = sc.conn.tap.conn.output }))
                main
                fb)
            ≡ (ok (net.join_host_port host (itoa port), if v2 then 5 else 1), t))
  server_handshake-through_http net host port v2 h r p name digits law c s send clean fresh short
        small =
      server_handshake-through lib main fb am af salt hs hm hf lm lf other
        ⦃out = http_client_conn h r⦄ ⦃inp = http_server_conn h p⦄
        (http_channel h r name digits law p s) net host port v2 (new_http_client c name digits) send
        (fresh_http h r name digits c clean fresh) short small
