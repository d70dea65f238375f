-- ===== src/Client/Errors.antt =====
-- What a user reads when a request fails: utils/errors.ts.
use everyup.Common.{ℕ, String, Option, some, none, List, [], ◌∷◌, if◌then◌else◌, ◌==◌, or_else}

pub record ApiError : Type 0 where
  pub message : String
  pub code : String
  pub status : Option ℕ

-- What a `catch` is given: an ApiError, another Error, or a value that is no Error.
pub data Thrown : Type 0 where
  api_error : ApiError → Thrown
  error : (message : String) → Thrown
  value : Thrown

-- ERROR_MESSAGES.
abbrev error_messages : List (String × String)
error_messages =
    ("DATABASE_ERROR", "서버 오류가 발생했습니다.")
    ∷ ("FETCH_ERROR", "데이터를 불러오지 못했습니다.")
    ∷ ("CREATE_ERROR", "생성에 실패했습니다.")
    ∷ ("UPDATE_ERROR", "수정에 실패했습니다.")
    ∷ ("DELETE_ERROR", "삭제에 실패했습니다.")
    ∷ ("TOGGLE_ERROR", "상태 변경에 실패했습니다.")
    ∷ ("SECRET_ERROR", "보안 처리에 실패했습니다.")
    ∷ ("HASH_ERROR", "인증 정보 처리에 실패했습니다.")
    ∷ ("TOKEN_ERROR", "인증 토큰 생성에 실패했습니다.")
    ∷ ("SEND_ERROR", "알림 전송에 실패했습니다.")
    ∷ ("QUERY_ERROR", "데이터 조회에 실패했습니다.")
    ∷ ("INVALID_REQUEST", "잘못된 요청입니다.")
    ∷ ("INVALID_INPUT", "입력값이 올바르지 않습니다.")
    ∷ ("VALIDATION_ERROR", "입력값 검증에 실패했습니다.")
    ∷ ("NOT_FOUND", "요청한 항목을 찾을 수 없습니다.")
    ∷ ("FORBIDDEN", "이 작업을 수행할 권한이 없습니다.")
    ∷ ("CONFIG_UNAVAILABLE", "서버 설정을 불러올 수 없습니다.")
    ∷ ("UPDATE_FAILED", "설정 저장에 실패했습니다.")
    ∷ ("UNAUTHORIZED", "인증이 필요합니다.")
    ∷ ("INVALID_CREDENTIALS", "사용자명 또는 비밀번호가 올바르지 않습니다.")
    ∷ ("ALREADY_SETUP", "이미 초기 설정이 완료되었습니다.")
    ∷ ("HOST_NOT_FOUND", "호스트를 찾을 수 없습니다.")
    ∷ ("SERVICE_NOT_FOUND", "서비스를 찾을 수 없습니다.")
    ∷ ("PROJECT_NOT_FOUND", "그룹을 찾을 수 없습니다.")
    ∷ ("OBSERVED_SERVICE_NOT_FOUND", "Observed Service를 찾을 수 없습니다.")
    ∷ ("INFRASTRUCTURE_RESOURCE_NOT_FOUND", "인프라 리소스를 찾을 수 없습니다.")
    ∷ ("INFRASTRUCTURE_PROJECT_NOT_FOUND", "인프라 리소스에 배정할 그룹을 찾을 수 없습니다.")
    ∷ ("HOST_EXISTS", "이미 존재하는 호스트 ID입니다.")
    ∷ ("SERVICE_EXISTS", "이미 존재하는 서비스 ID입니다.")
    ∷ ("SSRF_BLOCKED", "보안상 허용되지 않는 주소입니다.")
    ∷ ("NO_COLLECTOR", "Collector가 등록되지 않았습니다.")
    ∷ ("COLLECT_FAILED", "시스템 정보 수집에 실패했습니다.")
    ∷ ("UNKNOWN_ERROR", "알 수 없는 오류가 발생했습니다.")
    ∷ []

abbrev lookup : String → List (String × String) → Option String
lookup k [] = none
lookup k ((j, v) ∷ m) = if j == k then some v else lookup k m

abbrev unknown_message : String
unknown_message = "알 수 없는 오류가 발생했습니다."

-- `ERROR_MESSAGES[code]`.
unfoldable pub message_of : String → Option String
message_of code = lookup code error_messages

unfoldable pub get_error_message : Thrown → String
get_error_message (api_error e) =
    if e.code == "" then e.message else or_else (message_of e.code) e.message
get_error_message (error message) = message
get_error_message value = unknown_message
