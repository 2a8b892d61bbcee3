-- ===== src/Hts/Auth/Response.antt =====
-- `parse_connected_response` and `build_connect_request` of api/hts/auth.py.
use aegis_hass.Base.{
  ℕ, ◌≡◌, refl, ap, ◌∙◌, not, ◌==◌, if◌then◌else◌, List, [], ◌∷◌, ◌++◌, is_nonempty, Bytes, All, ok,
}
use aegis_hass.Base.Text.{hex_upper}
use aegis_hass.Hts.Messages.{tlv_encode, keep_nonempty}
use aegis_hass.Hts.Messages.Tlv.{IsOrdinary, tlv_decode-tlv_encode_padded}
use aegis_hass.Hts.Auth.{HubInfo, hub_entries, parse_connected_response, read_params}

-- An entry of the response: the id's four bytes and the flag byte.
pub record Entry : Type 0 where
  pub a : ℕ
  pub b : ℕ
  pub c : ℕ
  pub d : ℕ
  pub flag : ℕ

abbrev pub id_of : Entry → Bytes
id_of e = e.a ∷ e.b ∷ e.c ∷ e.d ∷ []

abbrev pub entry_params : List Entry → List Bytes → List Bytes
entry_params [] tail = tail
entry_params (e ∷ es) tail = id_of e ∷ (e.flag ∷ []) ∷ entry_params es tail

abbrev pub entry_hubs : List Entry → List HubInfo
entry_hubs [] = []
entry_hubs (e ∷ es) =
    record { hub_id = hex_upper (id_of e); is_master = not (e.flag == 0) } ∷ entry_hubs es

entries_read :
    (es : List Entry) (tail : List Bytes)
    → hub_entries tail ≡ []
    → hub_entries (entry_params es tail) ≡ entry_hubs es
unfolding hub_entries
entries_read [] tail h = h
entries_read (e ∷ es) tail h =
    ap (λ t. record { hub_id = hex_upper (id_of e); is_master = not (e.flag == 0) } ∷ t)
      (entries_read es tail h)

entries_kept :
    (es : List Entry) (tail : List Bytes)
    → keep_nonempty (entry_params es tail) ≡ entry_params es (keep_nonempty tail)
entries_kept [] tail = refl
entries_kept (e ∷ es) tail = ap (λ t. id_of e ∷ (e.flag ∷ []) ∷ t) (entries_kept es tail)

entry_params-append :
    (es : List Entry) (more : List Bytes) → entry_params es [] ++ more ≡ entry_params es more
entry_params-append [] more = refl
entry_params-append (e ∷ es) more =
    ap (λ t. id_of e ∷ (e.flag ∷ []) ∷ t) (entry_params-append es more)

lone_param : (pad : Bytes) → hub_entries (if is_nonempty pad then pad ∷ [] else []) ≡ []
unfolding hub_entries
lone_param [] = refl
lone_param (b ∷ pad) = refl

read_first :
    (token : Bytes) (rest : List Bytes)
    → read_params ((0x0F ∷ []) ∷ token ∷ rest)
      ≡ ok (record { token = token; hubs = hub_entries rest })
read_first token rest = refl

-- A response is read as its token and exactly the listed hubs, in order, whatever padding follows:
-- the padding's own parameter is no hub, also where it has four bytes. The token is not empty, and
-- the padding holds neither the TLV delimiter nor the TLV escape byte.
pub parse_connected_response-entries :
    (t : ℕ) (token : Bytes) (es : List Entry) (pad : Bytes)
    → All IsOrdinary pad
    → parse_connected_response (tlv_encode ((0x0F ∷ []) ∷ (t ∷ token) ∷ entry_params es []) ++ pad)
      ≡ ok (record { token = t ∷ token; hubs = entry_hubs es })
unfolding parse_connected_response
parse_connected_response-entries t token es pad h =
    let tail : List Bytes = if is_nonempty pad then pad ∷ [] else [] in
    let kept : keep_nonempty ((0x0F ∷ []) ∷ (t ∷ token) ∷ entry_params es []) ++ tail
        ≡ (0x0F ∷ []) ∷ (t ∷ token) ∷ entry_params es tail =
      ap (λ u. (0x0F ∷ []) ∷ (t ∷ token) ∷ (u ++ tail)) (entries_kept es [])
      ∙ ap (λ u. (0x0F ∷ []) ∷ (t ∷ token) ∷ u) (entry_params-append es tail) in
    ap read_params (tlv_decode-tlv_encode_padded (0x0F ∷ []) _ pad h ∙ kept)
    ∙ read_first (t ∷ token) (entry_params es tail)
    ∙ ap (λ u. ok (record { token = t ∷ token; hubs = u })) (entries_read es tail (lone_param pad))
