-- ===== src/Resolve/Tests.antt =====
-- Hosts resolved, and the theorem at a concrete input.
use mirror_cloud.Common.{◌≡◌, refl, false, [], ◌∷◌, some}
use mirror_cloud.Bytes.{codes, is_empty, has_prefix}
use mirror_cloud.Resolve.{
  Service, endpoint_host, credential_scope_service, service_by_host_prefix,
  service_by_declared_host,
}
use mirror_cloud.Resolve.Declared.{IsAnswer, service_by_declared_host-IsAnswer}

abbrev ecr : Service
ecr = record { id = codes "aws.ecr"; endpoint_prefix = codes "api.ecr"; aliases = []; hosts = [] }

abbrev storage : Service
storage = record {
  id = codes "gcp.storage";
  endpoint_prefix = [];
  aliases = [];
  hosts = codes "googleapis.com" ∷ codes "storage.googleapis.com" ∷ [];
}

host_ok :
    endpoint_host (codes "KMS-fips.us-east-1.amazonaws.com:443")
    ≡ codes "kms.us-east-1.amazonaws.com"
unfolding endpoint_host
host_ok = refl

scope_ok :
    credential_scope_service
      (codes "AWS4 Credential=AK/20260101/us-east-1/S3/aws4_request, SignedHeaders=host")
    ≡ codes "s3"
unfolding credential_scope_service has_prefix
scope_ok = refl

prefix_ok :
    service_by_host_prefix (ecr ∷ storage ∷ []) (codes "api.ecr.us-east-1.amazonaws.com") ≡ some ecr
unfolding service_by_host_prefix
prefix_ok = refl

some_host : is_empty (endpoint_host (codes "b.storage.googleapis.com")) ≡ false
unfolding endpoint_host
some_host = refl

service_by_declared_host-IsAnswer_example :
    IsAnswer
      (ecr ∷ storage ∷ [])
      (endpoint_host (codes "b.storage.googleapis.com"))
      (service_by_declared_host (ecr ∷ storage ∷ []) (codes "b.storage.googleapis.com"))
service_by_declared_host-IsAnswer_example =
    service_by_declared_host-IsAnswer (ecr ∷ storage ∷ []) (codes "b.storage.googleapis.com")
      some_host
