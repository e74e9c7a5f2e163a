-- ===== src/Protocol/HotStuff/Timeouts.antt =====
-- protocol/hotstuff.go: what the timeouts leave of the state.
use banyan.Base.{inl, inr, slt, Word, Returns, Returns-bind, Bool-cases, Option-cases}
use banyan.View.{Tmo, Tc, process_remote_tmo}
use banyan.Protocol.Views.{ViewEnv}
use banyan.Protocol.HotStuff.{
  HotStuff, process_tc, process_certificate, process_tmo, process_local_tmo,
}
use banyan.Protocol.HotStuff.Growth.{Grows, process_certificate-Grows}

module _ (env : ViewEnv) (o : HotStuff) where
  process_tc-Grows : (s : HotStuff) (tc : Tc) → Grows o s → Grows o (process_tc s tc)
  unfolding process_tc
  process_tc-Grows s tc h = elim (Bool-cases (slt tc.view s.pm.cur_view)) [
    | inl e ↦ rw e h
    | inr e ↦ rw e h
  ]

  pub process_tmo-Grows :
      (s : HotStuff) (tmo : Tmo) → Grows o s → Returns (Grows o) (process_tmo env s tmo)
  unfolding process_tmo
  process_tmo-Grows s tmo h = elim (Option-cases tmo.high_qc) [
    | inl e ↦ rw (process_tmo, e) tt
    | inr (qc, e) ↦
        rw (process_tmo, e)
          (Returns-bind (Grows o) (Grows o) (process_certificate env s qc) _
            (process_certificate-Grows env o s qc h)
            (λ t k. elim (Bool-cases (process_remote_tmo t.pm tmo).1) [
              | inr m ↦ rw m k
              | inl m ↦ elim (Option-cases (process_remote_tmo t.pm tmo).2) [
                | inl n ↦ rw (m, n) tt
                | inr (tc, n) ↦
                    rw (m, n)
                      (process_tc-Grows (record t { pm = (process_remote_tmo t.pm tmo).0 }) tc k)
              ]
            ]))
  ]

  pub process_local_tmo-Grows :
      (s : HotStuff) (view : Word) → Grows o s → Returns (Grows o) (process_local_tmo env s view)
  unfolding process_local_tmo
  process_local_tmo-Grows s view h = process_tmo-Grows _ _ h
