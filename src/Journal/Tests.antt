-- ===== src/Journal/Tests.antt =====
-- The journal theorems at a journal of three requests.
use mirror_cloud.Common.{ℕ, [], ◌∷◌, some}
use mirror_cloud.Common.Int.{pos}
use mirror_cloud.Bytes.{Bytes, codes}
use mirror_cloud.Journal.{Entry, Filter, Journal}

abbrev served : ℕ → Bytes → Entry
served t op = record { at = pos t; service_id = codes "aws.sqs"; operation = op; note = [] }

abbrev three : Journal
three = record {
  entries =
      served 1 (codes "SendMessage")
      ∷ served 2 (codes "ReceiveMessage")
      ∷ served 3 (codes "SendMessage")
      ∷ [];
}

abbrev latest_send : Filter
latest_send = record {
  service_id = [];
  operation = codes "SendMessage";
  since = some (pos 1);
  limit = pos 1;
}
