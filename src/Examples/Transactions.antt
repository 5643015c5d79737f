-- ===== src/Examples/Transactions.antt =====
-- Lookups and transactions with the modem of the examples.
use postmarketos_x00td_cellu.Common.{[], ◌∷◌}
use postmarketos_x00td_cellu.Qrtr.{qrtr_svc_nas, qrtr_lookup, qrtr_txn}
use postmarketos_x00td_cellu.Qrtr.Lookup.{FoundWithin, qrtr_lookup-FoundWithin}
use postmarketos_x00td_cellu.Qrtr.Replies.{AnswersWithin, qrtr_txn-AnswersWithin}
use postmarketos_x00td_cellu.Examples.Modem.{modem, start}

qrtr_txn-AnswersWithin_example :
    AnswersWithin ⦃K = modem⦄ 0x24 1024 65 start
      (qrtr_txn ⦃K = modem⦄ 7 0 5 (0 ∷ 1 ∷ 0 ∷ 0x24 ∷ 0 ∷ 0 ∷ 0 ∷ []) 0x24 1024 2000 start)
qrtr_txn-AnswersWithin_example =
    qrtr_txn-AnswersWithin ⦃K = modem⦄ 7 0 5 (0 ∷ 1 ∷ 0 ∷ 0x24 ∷ 0 ∷ 0 ∷ 0 ∷ []) 0x24 1024 2000
      start

qrtr_lookup-FoundWithin_example :
    FoundWithin ⦃K = modem⦄ qrtr_svc_nas 129 start (qrtr_lookup ⦃K = modem⦄ 7 qrtr_svc_nas start)
qrtr_lookup-FoundWithin_example = qrtr_lookup-FoundWithin ⦃K = modem⦄ 7 qrtr_svc_nas start
