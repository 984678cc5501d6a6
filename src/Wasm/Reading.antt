-- ===== src/Wasm/Reading.antt =====
-- cmd/netso-wasm/main.go: what the page gets from an open session.
use netso.Common.{
  ℕ, zero, suc, ◌+◌, ◌≤◌, ◌≡◌, refl, ap, ◌∙◌, true, List, [], ◌∷◌, ◌++◌, length, arith, inl, inr,
}
use netso.Common.Bytes.{Bytes}
use netso.Common.Result.{Result-cases}
use netso.Secure
use netso.Secure.{Noise, Session}
use netso.Secure.Drain.{shown, drain, Gives, IsOutput, drain-Gives, joined}
use netso.Wasm.{Status, Page, status, closed, data_of, read_all}
use netso.Wasm.Outcome.{IsPage, status-seen, closed-seen}

-- Data changes no status, and a status and a close hand over no data.
pub record IsApart {W : Type 0} (page : Page W) (noise : Noise) (seen : W → List Status × ℕ)
    (handed : W → Bytes) : Type 0 where
  pub data_seen : (p : Bytes) (w : W) → seen (data_of page noise p w) ≡ seen w
  pub status_handed : (st : Status) (w : W) → handed (status page noise st w) ≡ handed w
  pub closed_handed : (w : W) → handed (closed page noise w) ≡ handed w

module _ {W : Type 0} (page : Page W) (noise : Noise) (seen : W → List Status × ℕ)
    (handed : W → Bytes) where
  read-seen :
      (sess : Session noise.Cipher) (w : W)
      → IsPage page noise seen
      → seen (Secure.read page.conn noise sess w).1 ≡ seen w
  unfolding Secure.read
  read-seen sess w p =
      let same : seen (page.conn.read_msg w).0 ≡ seen w = p.conn_seen.reads w in
      elim (Result-cases (page.conn.read_msg w).1) [
        | inl (e, failed) ↦ ground arith
        | inr (ct, got) ↦ elim (Result-cases (noise.decrypt sess.recv ct)) [
          | inl (e, failed) ↦ ground arith
          | inr (d, opened) ↦ ground arith
        ]
      ]

  shown-seen :
      (text : Bytes) (w : W)
      → IsApart page noise seen handed
      → seen (shown page.conn noise (data_of page noise) text w) ≡ seen w
  shown-seen [] w apart = refl
  shown-seen (c ∷ text) w apart = ground (arith, apart.data_seen (c ∷ text) w)

  drain-seen :
      (fuel : ℕ) (sess : Session noise.Cipher) (w : W)
      → IsPage page noise seen
      → IsApart page noise seen handed
      → seen (drain page.conn noise (data_of page noise) fuel sess w).1 ≡ seen w
  unfolding drain
  drain-seen zero sess w p apart = refl
  drain-seen (suc fuel) sess w p apart =
      let r = Secure.read page.conn noise sess w in
      let same = read-seen sess w p in
      elim (Result-cases r.2) [
        | inl (e, failed) ↦ rw (failed, drain) same
        | inr (text, got) ↦
            rw (got, drain)
              (drain-seen fuel r.0 (shown page.conn noise (data_of page noise) text r.1) p apart
                ∙ shown-seen text r.1 apart
                ∙ same)
      ]

  -- When the reads of an open session give some texts and then an error, the reading goroutine returns,
  -- on fuel for one read more than there are texts; the page was handed these texts one after the other
  -- and no other data, and was then told once that the session is closed, by the status and by the
  -- callback. The page has all three callbacks, data adds itself to what was handed over, and each
  -- callback, and the connection, changes nothing that is seen by another.
  pub read_all-Gives :
      (fuel : ℕ) (sess : Session noise.Cipher) (w : W) (ps : List Bytes)
      → IsPage page noise seen
      → IsApart page noise seen handed
      → IsOutput page.conn noise (data_of page noise) handed
      → Gives page.conn noise (data_of page noise) sess w ps
      → length ps + 1 ≤ fuel
      → ((read_all page noise fuel sess w).0 ≡ true)
        × (handed (read_all page noise fuel sess w).1 ≡ handed w ++ joined ps)
        × (seen (read_all page noise fuel sess w).1
            ≡ ((seen w).0 ++ Status.session_closed ∷ [], suc (seen w).1))
  unfolding read_all
  read_all-Gives fuel sess w ps p apart o g enough =
      let (returned, data_out) =
        drain-Gives page.conn noise (data_of page noise) handed fuel sess w ps o g enough in
      let w' = (drain page.conn noise (data_of page noise) fuel sess w).1 in
      let told = status page noise Status.session_closed w' in
      (
        returned,
        rw (returned, read_all)
            (apart.closed_handed told ∙ apart.status_handed Status.session_closed w' ∙ data_out),
        rw (returned, read_all)
            (closed-seen page noise seen told p
              ∙ ap (λ x. (x.0, suc x.1)) (status-seen page noise seen Status.session_closed w' p)
              ∙ ap (λ x. (x.0 ++ Status.session_closed ∷ [], suc x.1))
                  (drain-seen fuel sess w p apart)),
      )
