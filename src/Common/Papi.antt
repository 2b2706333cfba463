-- ===== src/Common/Papi.antt =====
-- The error numbers of PAPI that the components return.

pub data PapiErrno : Type 0 where
  papi_ok papi_einval papi_enomem papi_ecmp papi_ecnflct papi_emisc papi_enosupp papi_enoevnt
        papi_esys papi_end :
      PapiErrno
