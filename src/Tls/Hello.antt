-- ===== src/Tls/Hello.antt =====
-- `makeClientHelloMsg` (components/simple-obfs/tls/client.go) and `makeServerHello`
-- (components/simple-obfs/tls/server.go).
use open_snell.Base.{ℕ, ◌+◌, ◌/◌, List, [], ◌∷◌, ◌++◌, length, to_byte, to_u16, be16}
use open_snell.Tls.Types.{Draw}

-- `binary.Write(buf, binary.BigEndian, uint32(n))`
abbrev pub be32 : ℕ → List ℕ
be32 n = to_byte (n / 16777216) ∷ to_byte (n / 65536) ∷ to_byte (n / 256) ∷ to_byte n ∷ []

-- `binary.Write(buf, binary.BigEndian, uint16(n))`
abbrev pub put16 : ℕ → List ℕ
put16 n = be16 (to_u16 n)

-- 28 cipher suites, behind their length.
unfoldable pub suites : List ℕ
suites =
    0x00 ∷ 0x38 ∷ 0xc0 ∷ 0x2c ∷ 0xc0 ∷ 0x30 ∷ 0x00 ∷ 0x9f ∷ 0xcc ∷ 0xa9 ∷ 0xcc ∷ 0xa8 ∷ 0xcc ∷ 0xaa
    ∷ 0xc0 ∷ 0x2b ∷ 0xc0 ∷ 0x2f ∷ 0x00 ∷ 0x9e ∷ 0xc0 ∷ 0x24 ∷ 0xc0 ∷ 0x28 ∷ 0x00 ∷ 0x6b ∷ 0xc0
    ∷ 0x23 ∷ 0xc0 ∷ 0x27 ∷ 0x00 ∷ 0x67 ∷ 0xc0 ∷ 0x0a ∷ 0xc0 ∷ 0x14 ∷ 0x00 ∷ 0x39 ∷ 0xc0 ∷ 0x09
    ∷ 0xc0 ∷ 0x13 ∷ 0x00 ∷ 0x33 ∷ 0x00 ∷ 0x9d ∷ 0x00 ∷ 0x9c ∷ 0x00 ∷ 0x3d ∷ 0x00 ∷ 0x3c ∷ 0x00
    ∷ 0x35 ∷ 0x00 ∷ 0x2f ∷ 0x00 ∷ 0xff ∷ []

-- The extensions ec_point, groups, signature, encrypt then mac, and extended master secret.
unfoldable pub last_exts : List ℕ
last_exts =
    0x00 ∷ 0x0b ∷ 0x00 ∷ 0x04 ∷ 0x03 ∷ 0x01 ∷ 0x00 ∷ 0x02 ∷ 0x00 ∷ 0x0a ∷ 0x00 ∷ 0x0a ∷ 0x00 ∷ 0x08
    ∷ 0x00 ∷ 0x1d ∷ 0x00 ∷ 0x17 ∷ 0x00 ∷ 0x19 ∷ 0x00 ∷ 0x18 ∷ 0x00 ∷ 0x0d ∷ 0x00 ∷ 0x20 ∷ 0x00
    ∷ 0x1e ∷ 0x06 ∷ 0x01 ∷ 0x06 ∷ 0x02 ∷ 0x06 ∷ 0x03 ∷ 0x05 ∷ 0x01 ∷ 0x05 ∷ 0x02 ∷ 0x05 ∷ 0x03
    ∷ 0x04 ∷ 0x01 ∷ 0x04 ∷ 0x02 ∷ 0x04 ∷ 0x03 ∷ 0x03 ∷ 0x01 ∷ 0x03 ∷ 0x02 ∷ 0x03 ∷ 0x03 ∷ 0x02
    ∷ 0x01 ∷ 0x02 ∷ 0x02 ∷ 0x02 ∷ 0x03 ∷ 0x00 ∷ 0x16 ∷ 0x00 ∷ 0x00 ∷ 0x00 ∷ 0x17 ∷ 0x00 ∷ 0x00 ∷ []

-- The server name extension up to the length of the name.
unfoldable pub name_head : List ℕ → List ℕ
name_head server =
    0x00 ∷ 0x00 ∷ (put16 (length server + 5) ++ (put16 (length server + 3) ++ (0 ∷ [])))

-- Everything behind the session ticket.
unfoldable pub hello_tail : List ℕ → List ℕ
hello_tail server = name_head server ++ (put16 (length server) ++ (server ++ last_exts))

-- Everything before the length of the session ticket; `n` is `len(data)`, `s` is `len(server)`.
unfoldable pub hello_head : Draw → ℕ → ℕ → List ℕ
hello_head d n s =
    22
    ∷ 0x03
    ∷ 0x01
    ∷ (be16 (to_u16 (212 + n + s))
        ++ (1
            ∷ 0
            ∷ (put16 (208 + n + s)
                ++ (0x03
                    ∷ 0x03
                    ∷ (be32 d.time
                        ++ (d.random
                            ++ (32
                                ∷ (d.session_id
                                    ++ (suites
                                        ++ (0x01
                                            ∷ 0x00
                                            ∷ (put16 (79 + n + s) ++ (0x00 ∷ 0x23 ∷ []))))))))))))

-- `makeClientHelloMsg(data, server)`
unfoldable pub make_client_hello_msg : Draw → List ℕ → List ℕ → List ℕ
make_client_hello_msg d payload server =
    hello_head d (length payload) (length server)
    ++ (put16 (length payload) ++ (payload ++ hello_tail server))

-- The server hello, the change of cipher, and the head of a handshake record.
unfoldable pub answer_head : Draw → List ℕ
answer_head d =
    0x16
    ∷ (put16 0x0301
        ++ (put16 91
            ++ (2
                ∷ 0
                ∷ 0
                ∷ 87
                ∷ 0x03
                ∷ 0x03
                ∷ (be32 d.time
                    ++ (d.random
                        ++ (32
                            ∷ (d.session_id
                                ++ (0xcc ∷ 0xa8 ∷ 0 ∷ 0x00 ∷ 0x00 ∷ 0xff ∷ 0x01 ∷ 0x00 ∷ 0x01 ∷ 0x00
                                    ∷ 0x00 ∷ 0x17 ∷ 0x00 ∷ 0x00 ∷ 0x00 ∷ 0x0b ∷ 0x00 ∷ 0x02 ∷ 0x01
                                    ∷ 0x00 ∷ 0x14 ∷ 0x03 ∷ 0x03 ∷ 0x00 ∷ 0x01 ∷ 0x01 ∷ 0x16 ∷ 0x03
                                    ∷ 0x03 ∷ []))))))))

-- `makeServerHello(data)`
unfoldable pub make_server_hello : Draw → List ℕ → List ℕ
make_server_hello d payload = answer_head d ++ (put16 (length payload) ++ payload)
