-- ===== src/Setup/Agree.antt =====
-- The commands, the constructors and the obfuscation fit together.
use open_snell.Socks5.Listener.{Accept, accept_loop-All}
use open_snell.Socks5.Text.{NetLib}
use Prim.Native.String.{String}
use package.text.Mathlib.Text.{◌==◌}
use open_snell.Base.{
  Bool, All, List, ℕ, ◌≡◌, refl, sym, ap, ◌∙◌, inl, inr, false, Option, none, some, if◌then◌else◌,
  Bool-cases, arith,
}
use open_snell.Io.{Conn, Result, ok}
use open_snell.Aead.Cipher.{CryptoLib}
use open_snell.Setup.Obfs.{ObfsServer, ObfsClient, new_obfs_server, new_obfs_client}
use open_snell.Setup.Ends.{
  Dressed, NewSession, new_session, serve_accepted, SnellServer, SnellClient, refused,
  new_snell_server, new_snell_client,
}
use open_snell.Setup.Commands.{
  Config, ClientFlags, configured, client_settings, check_client, or_else, client_section, wants_v2,
}

-- Both ends wrap their connection alike.
abbrev pub Alike : ObfsServer → ObfsClient → Type 0
Alike (ObfsServer.tls s) (ObfsClient.tls c) = Unit {0}
Alike (ObfsServer.http s) (ObfsClient.http c) = Unit {0}
Alike (ObfsServer.plain s) (ObfsClient.plain c) = Unit {0}
Alike s c = ⊥

abbrev pub Wrapped : Result ObfsServer → Result ObfsClient → Type 0
Wrapped r q = (s : ObfsServer) × (c : ObfsClient) × (r ≡ ok s) × (q ≡ ok c) × Alike s c

wrapped :
    (a b : Conn) (host port : List ℕ) (obfs : String)
    → refused obfs ≡ false
    → Wrapped (new_obfs_server a obfs) (new_obfs_client b host port obfs)
unfolding refused new_obfs_server new_obfs_client
wrapped a b host port obfs h = elim (Bool-cases (obfs == "tls")) [
  | inl e ↦ rw e (_, _, refl, refl, tt)
  | inr e ↦ elim (Bool-cases (obfs == "http")) [
    | inl f ↦ rw (e, f) (_, _, refl, refl, tt)
    | inr f ↦ elim (Bool-cases (obfs == "")) [
      | inl g ↦ elim (Bool-cases (obfs == "none")) [
        | inl k ↦ rw (e, f, g, k) (_, _, refl, refl, tt)
        | inr k ↦ rw (e, f, g, k) (_, _, refl, refl, tt)
      ]
      | inr g ↦ ground arith
    ]
  ]
]

or_else_given : (s : String) → (or_else s "bing.com" == "") ≡ false
unfolding or_else
or_else_given s = elim (Bool-cases (s == "")) [ inl e ↦ rw e refl | inr e ↦ rw (e, e) refl ]

abbrev host_of : Option ClientFlags → String
host_of none = ""
host_of (some f) = f.obfs_host

check_client_host :
    (o : Option ClientFlags) (f : ClientFlags)
    → check_client o ≡ some f
    → (f.obfs_host == "") ≡ false
unfolding check_client
check_client_host none f h = ground arith
check_client_host (some g) f h = elim (Bool-cases (g.server == "")) [
  | inl e ↦ let q : Path (Option ClientFlags) none (some f) = rw e at h in ground arith
  | inr e ↦
      let q : Path (Option ClientFlags) (some _) (some f) = rw e at h in
      let r : or_else g.obfs_host "bing.com" ≡ f.obfs_host = ap host_of q in
      ap (λ (s : String). s == "") (sym r) ∙ or_else_given g.obfs_host
]

-- A connection that the server dressed, and a session that the client began.
abbrev pub Matches : Bool → NewSession → Dressed → Type 0
Matches v2 w d = Wrapped d.obfs w.obfs × (w.cipher ≡ (if v2 then d.cipher else d.fallback))

-- Where both commands are given one obfuscation that the constructors do not refuse, and the client
-- gets through its own settings, both ends start. Every connection that the server's accept loop
-- serves then matches every session that the client begins on a connection it dialled: the
-- obfuscation is found at both ends and of the same kind, so that no error is dropped, and the client
-- has the first of the server's ciphers for version 2, and the fallback for the other versions. The
-- client keeps the obfs host of its settings.
pub setups_agree :
    {Block : Type 0} (lib : CryptoLib Block) (net : NetLib) (psk addr : List ℕ) (config : Config)
    (flags f : ClientFlags)
    → client_settings config flags ≡ some f
    → refused f.obfs ≡ false
    → (s : SnellServer) × (c : SnellClient) × (new_snell_server lib none psk f.obfs ≡ ok s)
      × (new_snell_client lib none addr f.obfs f.obfs_host psk (wants_v2 f) ≡ ok c)
      × (c.obfs_host ≡ f.obfs_host)
      × ((dialled : Conn) (accepts : List (Accept Conn))
          → (w : NewSession) × (new_session net (ok dialled) c ≡ ok w)
            × All (Matches (wants_v2 f) w) (serve_accepted s accepts))
unfolding client_settings new_snell_server new_snell_client new_session serve_accepted
setups_agree lib net psk addr config flags f h known =
    let given = check_client_host (configured config client_section flags) f h in
    rw known (
      _,
      _,
      refl,
      refl,
      rw given refl,
      λ dialled accepts.
          (_, refl, accept_loop-All _ _ accepts λ a. (wrapped a dialled _ _ f.obfs known, refl)),
    )
